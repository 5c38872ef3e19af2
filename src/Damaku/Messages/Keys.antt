-- ===== src/Damaku/Messages/Keys.antt =====
-- The keys of the caches tell the messages apart.
use focot_services.Prelude.{
  Bool-cases, Text, format_uint, format_uint-injective, format_uint-colon, ℕ, ◌≡◌, refl, ◌↔◌, ◌⊎◌,
  inl, inr, true, none, some, arith,
}
use focot_services.Damaku.Messages.{UserInfoMeta, FansMedalMeta, same_medal, fill_user, medal_key}

-- Two medals have one key exactly if they are of one user and one room.
pub medal_key_iff :
    (a b : FansMedalMeta)
    → (medal_key a ≡ medal_key b) ↔ ((a.uid ≡ b.uid) × (a.room_uid ≡ b.room_uid))
unfolding medal_key
medal_key_iff a b = (
  λ e.
      let (user, room) =
        format_uint-colon a.uid b.uid (format_uint a.room_uid) (format_uint b.room_uid) e in
      (user, format_uint-injective a.room_uid b.room_uid room),
  λ e. rw (e.0, e.1),
)

-- What is filled in is what the new message leaves out: no field that either message has is lost,
-- and a field of the new message is kept.
pub fill_user_lem :
    (meta old : UserInfoMeta)
    → ((fill_user meta old).user_name ≡ meta.user_name)
      × ((fill_user meta old).uid ≡ meta.uid)
      × ((f : Text)
          → ((fill_user meta old).face ≡ some f)
            ↔ ((meta.face ≡ some f) ⊎ ((meta.face ≡ none) × (old.face ≡ some f))))
      × ((n : ℕ)
          → ((fill_user meta old).level ≡ some n)
            ↔ ((meta.level ≡ some n) ⊎ ((meta.level ≡ none) × (old.level ≡ some n))))
      × ((n : ℕ)
          → ((fill_user meta old).wealth_level ≡ some n) ↔ (
              (meta.wealth_level ≡ some n)
              ⊎ ((meta.wealth_level ≡ none) × (old.wealth_level ≡ some n))))
unfolding fill_user
fill_user_lem meta old = (
  refl,
  refl,
  λ f. (λ e. ground arith, λ e. ground arith),
  λ n. (λ e. ground arith, λ e. ground arith),
  λ n. (λ e. ground arith, λ e. ground arith),
)

-- A medal is the same as itself.
pub same_medal_refl : (m : FansMedalMeta) → same_medal m m ≡ true
unfolding same_medal
same_medal_refl m = elim (Bool-cases m.light) [ inl on ↦ ground arith | inr off ↦ ground arith ]
