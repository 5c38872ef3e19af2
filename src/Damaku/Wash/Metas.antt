-- ===== src/Damaku/Wash/Metas.antt =====
-- io-bilive-damaku/cmd/wash.go: the users and the medals that `updateUser` and `updateMedal` keep.
use focot_services.Prelude.{
  ◌==◌, if◌then◌else◌, Bool-cases, Option-cases, lookup, insert, lookup-insert, Text, ℕ, ◌≡◌, refl,
  sym, ap, ◌∙◌, inl, inr, ite, false, not, ◌&&◌, Option, none, some, [], ◌∷◌, ◌++◌, arith,
  ℕ_discrete,
}
use focot_services.Damaku.Messages.{UserInfoMeta, FansMedalMeta}
use focot_services.Damaku.Wash.Store.{
  Library, zero_user, zero_medal, zero_super_chat, BliveData, take_first, update_user, update_medal,
}
use focot_services.Prelude.Results.{ok, value_or}
use focot_services.Damaku.Raw.{stamp, super_chat}
use focot_services.Damaku.Wash.Tokens.{super_chat_raw}

module _ (L : Library) where
  -- `data.mapMedal[uid][room]`
  unfoldable pub medal_at : ℕ → ℕ → BliveData L → Option FansMedalMeta
  medal_at uid room b = elim (lookup ℕ_discrete uid b.map_medal) [
    | none ↦ none
    | some medals ↦ lookup ℕ_discrete room medals
  ]

  -- The entry that an event leaves.
  abbrev latest : FansMedalMeta → Option FansMedalMeta → FansMedalMeta
  latest info none = info
  latest info (some held) = record info { uid = held.uid; room_uid = held.room_uid }

  medal_at-merged :
      (info : FansMedalMeta) (b : BliveData L) (uid room : ℕ)
      → (info.room_uid == 0) ≡ false
      → medal_at uid room (update_medal L info b) ≡ (
          if info.uid == uid && info.room_uid == room
          then some (latest info (medal_at uid room b))
          else medal_at uid room b)
  unfolding medal_at update_medal
  medal_at-merged info b uid room worn =
      elim (Option-cases (lookup ℕ_discrete info.uid b.map_medal)) [
        | inl e ↦
            rw (update_medal, worn, e)
              (let law =
                  lookup-insert ℕ_discrete info.uid uid ((info.room_uid, latest info none) ∷ [])
                    b.map_medal in
                ground (arith, law))
        | inr (medals, e) ↦
            rw (update_medal, worn, e)
              (elim (Option-cases (lookup ℕ_discrete info.room_uid medals)) [
                | inl new ↦ rw new (
                    let law =
                      lookup-insert ℕ_discrete info.uid uid
                        (insert ℕ_discrete info.room_uid info medals) b.map_medal in
                    let inner = lookup-insert ℕ_discrete info.room_uid room info medals in
                    ground (arith, law, inner))
                | inr (held, old) ↦ rw old (
                    let law =
                      lookup-insert ℕ_discrete info.uid uid
                        (insert ℕ_discrete info.room_uid (latest info (some held)) medals)
                        b.map_medal in
                    let inner =
                      lookup-insert ℕ_discrete info.room_uid room (latest info (some held))
                        medals in
                    ground (arith, law, inner))
              ])
      ]

  -- Every medal stands under its user and its room.
  unfoldable pub HasKeys : BliveData L → Type 0
  HasKeys b =
      (uid room : ℕ) (m : FansMedalMeta)
      → medal_at uid room b ≡ some m
      → (m.uid ≡ uid) × (m.room_uid ≡ room)

  latest_keyed :
      (info : FansMedalMeta) (o : Option FansMedalMeta)
      → ((m : FansMedalMeta) → o ≡ some m → (m.uid ≡ info.uid) × (m.room_uid ≡ info.room_uid))
      → latest info o ≡ info
  latest_keyed info none keyed = refl
  latest_keyed info (some held) keyed =
      let (same_uid, same_room) = keyed held refl in rw (same_uid, same_room) refl

  medal_at-worn :
      (info : FansMedalMeta) (b : BliveData L)
      → HasKeys b
      → (info.room_uid == 0) ≡ false
      → (uid room : ℕ)
      → medal_at uid room (update_medal L info b)
        ≡ (if info.uid == uid && info.room_uid == room then some info else medal_at uid room b)
  unfolding HasKeys
  medal_at-worn info b keyed worn uid room =
      medal_at-merged info b uid room worn
      ∙ elim (Bool-cases (info.uid == uid && info.room_uid == room)) [
        | inl at ↦ rw at (
            let same_uid : info.uid ≡ uid = ground arith in
            let same_room : info.room_uid ≡ room = ground arith in
            ap some (
              latest_keyed info (medal_at uid room b)
                (λ m e. let k = keyed uid room m e in (k.0 ∙ sym same_uid, k.1 ∙ sym same_room))))
        | inr off ↦ rw off refl
      ]

  -- When every medal stands under its user and its room, it still does after an event; the medal of
  -- the event is then the one of its user for its room, and the other medals are what they were. An
  -- event with no medal changes nothing.
  pub update_medal-HasKeys :
      (info : FansMedalMeta) (b : BliveData L)
      → HasKeys b
      → HasKeys (update_medal L info b)
        × ((uid room : ℕ)
            → medal_at uid room (update_medal L info b) ≡ (
                if info.uid == uid && info.room_uid == room && not (info.room_uid == 0)
                then some info
                else medal_at uid room b))
  unfolding HasKeys
  update_medal-HasKeys info b keyed = elim (Bool-cases (info.room_uid == 0)) [
    | inl off ↦
        let same : update_medal L info b ≡ b = unfold update_medal in rw off refl in
        rw (same, off) (keyed, λ uid room. ground arith)
    | inr worn ↦
        let law = medal_at-worn info b keyed worn in
        (
          λ uid room m e. elim (Bool-cases (info.uid == uid && info.room_uid == room)) [
            | inl at ↦
                let is : some info ≡ some m = sym (rw at at (law uid room)) ∙ e in ground arith
            | inr other ↦ keyed uid room m (sym (rw other at (law uid room)) ∙ e)
          ],
          λ uid room. rw worn (law uid room ∙ ground arith),
        )
  ]

  abbrev level_in : Option UserInfoMeta → Option ℕ
  level_in none = none
  level_in (some u) = u.level

  pub level_of : ℕ → BliveData L → Option ℕ
  level_of uid b = level_in (lookup ℕ_discrete uid b.map_user)

  map_user-update_medal :
      (m : FansMedalMeta) (b : BliveData L) → (update_medal L m b).map_user ≡ b.map_user
  unfolding update_medal
  map_user-update_medal m b = elim (Bool-cases (m.room_uid == 0)) [
    | inl off ↦ rw (update_medal, off) refl
    | inr worn ↦ rw (update_medal, worn) refl
  ]

  take_first-level :
      (user info : UserInfoMeta) (face : Text)
      → user.face ≡ some face
      → (take_first L user info).level ≡ info.level
  unfolding take_first
  take_first-level user info face has = rw (take_first, has) refl

  level_in-or_zero :
      (o : Option UserInfoMeta)
      → (elim o as (λ _. UserInfoMeta) [ none ↦ zero_user | some i ↦ i ]).level ≡ level_in o
  level_in-or_zero none = refl
  level_in-or_zero (some u) = refl

  -- A user that has a face keeps the level of before.
  level_of-update_user :
      (user : UserInfoMeta) (face : Text) (b : BliveData L) (uid : ℕ)
      → user.face ≡ some face
      → level_of uid (update_user L user b) ≡ level_of uid b
  unfolding level_of update_user
  level_of-update_user user face b uid has =
      let info : UserInfoMeta = elim (lookup ℕ_discrete user.uid b.map_user) [
        | none ↦ zero_user
        | some i ↦ i
      ] in
      let named : UserInfoMeta = record info { uid = user.uid; user_name = user.user_name } in
      let x = take_first L user named in
      let same : x.level ≡ level_in (lookup ℕ_discrete user.uid b.map_user) =
        take_first-level user named face has
        ∙ level_in-or_zero (lookup ℕ_discrete user.uid b.map_user) in
      let law = lookup-insert ℕ_discrete user.uid uid x b.map_user in
      ap level_in law
      ∙ elim (ℕ_discrete user.uid uid)
          as (λ d.
            level_in (ite d (some x) (lookup ℕ_discrete uid b.map_user))
            ≡ level_in (lookup ℕ_discrete uid b.map_user)) [
              | yes p ↦ same ∙ ap (λ k. level_in (lookup ℕ_discrete k b.map_user)) p
              | no _ ↦ refl
            ]

  level_of_stored :
      (user : UserInfoMeta) (medal : FansMedalMeta) (face : Text) (b b' : BliveData L) (uid : ℕ)
      → user.face ≡ some face
      → update_medal L medal (update_user L user b) ≡ b'
      → level_of uid b' ≡ level_of uid b
  unfolding level_of
  level_of_stored user medal face b b' uid has is =
      ap (level_of uid) (sym is)
      ∙ rw (level_of, map_user-update_medal medal (update_user L user b)) refl
      ∙ level_of-update_user user face b uid has

  -- A super chat says the level of its user, but what is kept of any user's level is what it was
  -- before: the `switch` stops at the face, which a super chat always has.
  pub super_chat_raw_level :
      (raw : Text) (b b' : BliveData L) (uid : ℕ)
      → super_chat_raw L raw b ≡ ok b'
      → level_of uid b' ≡ level_of uid b
  unfolding super_chat_raw super_chat stamp level_of
  super_chat_raw_level raw b b' uid h =
      let read =
        value_or (zero_user, zero_medal, zero_super_chat)
          (super_chat (L.parse_json raw) zero_user zero_medal zero_super_chat) in
      level_of_stored read.0 read.1 _ (record b { super_chats = b.super_chats ++ read.2 ∷ [] }) b'
        uid refl (ap (value_or b) h)
