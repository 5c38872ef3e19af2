-- ===== src/Damaku/Agent/Indexer/Merged.antt =====
-- What the index holds of a user: everything that its metas have told, the latest news first.
use focot_services.Prelude.{
  Bool-cases, All, All-map, Text, codes, format_uint, ℕ, ◌≡◌, refl, sym, ap, ◌∙◌, inl, inr, true,
  Option, none, some, List, [], ◌∷◌, arith,
}
use focot_services.Prelude.Results.{ok, err}
use focot_services.Damaku.Messages.{UserInfoMeta, CompareEqual, same_user, fill_user, user_key}
use focot_services.Damaku.Cache.{Bytes, entry_not_found, BigCache, CacheLaws}
use focot_services.Damaku.Agent.Indexer.{
  Codec, Index, sync_meta, sync_user, index_user, index_users,
}

-- The last value that metas have given, behind the one from before, and their last name.
abbrev pub last_given :
    {A : Type 0} → (UserInfoMeta → Option A) → Option A → List UserInfoMeta → Option A
last_given field before [] = before
last_given field before (meta ∷ metas) =
    last_given field (elim (field meta) [ none ↦ before | some a ↦ some a ]) metas

abbrev pub last_name : Text → List UserInfoMeta → Text
last_name name [] = name
last_name name (meta ∷ metas) = last_name meta.user_name metas

-- The metas of a user put together: of each field the last value given.
abbrev pub merged : UserInfoMeta → List UserInfoMeta → UserInfoMeta
merged first metas = record {
  uid = first.uid;
  user_name = last_name first.user_name metas;
  face = last_given (λ meta. meta.face) first.face metas;
  level = last_given (λ meta. meta.level) first.level metas;
  wealth_level = last_given (λ meta. meta.wealth_level) first.wealth_level metas;
}

merged-fill_user :
    (meta old : UserInfoMeta) (metas : List UserInfoMeta)
    → meta.uid ≡ old.uid
    → merged (fill_user meta old) metas ≡ merged old (meta ∷ metas)
unfolding fill_user
merged-fill_user meta old metas same = ground (arith, same)

-- `compare.Equal` says so of equal values only.
pub record EqualLaws (equal : CompareEqual) : Type 0 where
  pub text : (a b : Option Text) → equal.text a b ≡ true → a ≡ b
  pub number : (a b : Option ℕ) → equal.number a b ≡ true → a ≡ b

-- Every user can be marshalled, and comes back from its bytes.
pub record CodecLaws (codec : Codec) : Type 0 where
  pub user :
      (meta : UserInfoMeta)
      → (bytes : Bytes) × ((codec.encode_user meta ≡ some bytes)
          × (codec.decode_user bytes ≡ some meta))

-- A meta that says the same as the cached one of that user adds nothing to it.
fill_same :
    (equal : CompareEqual) (meta old : UserInfoMeta)
    → EqualLaws equal
    → meta.uid ≡ old.uid
    → same_user equal meta old ≡ true
    → fill_user meta old ≡ old
unfolding same_user fill_user
fill_same equal meta old laws uid same = ground (
  arith,
  laws.text meta.face old.face,
  laws.number meta.level old.level,
  laws.number meta.wealth_level old.wealth_level,
)

module _ (B : BigCache) (codec : Codec) (equal : CompareEqual) where
  -- What the cache has under the key of a user reads as this user.
  abbrev pub Holds : UserInfoMeta → Index B codec equal → Type 0
  Holds meta x =
      (bytes : Bytes) × ((B.get (user_key meta) x.user_cache ≡ ok bytes)
        × (codec.decode_user bytes ≡ some meta))

  -- What `syncMeta` has published is what the cache holds behind it.
  sync_user-Holds :
      CacheLaws B
      → CodecLaws codec
      → ((k : Text) (v : Bytes) (s : B.Store) → (B.set k v s).0 ≡ none)
      → (subject : Text) (meta : UserInfoMeta) (x : Index B codec equal)
      → Holds meta (sync_user B codec equal subject meta x)
  unfolding sync_user sync_meta
  sync_user-Holds laws wire stored subject meta x =
      let (bytes, facts) = wire.user meta in
      (
        bytes,
        (
          ground (
            arith,
            facts.0,
            laws.get-set_self (user_key meta) bytes x.user_cache
                (stored (user_key meta) bytes x.user_cache),
          ),
          facts.1,
        ),
      )

  index_user-Holds :
      CacheLaws B
      → CodecLaws codec
      → EqualLaws equal
      → ((k : Text) (v : Bytes) (s : B.Store) → (B.set k v s).0 ≡ none)
      → (meta old : UserInfoMeta) (x : Index B codec equal) → meta.uid ≡ old.uid
      → Holds old x
      → Holds (fill_user meta old) (index_user B codec equal meta x)
  unfolding index_user
  index_user-Holds laws wire exact stored meta old x uid (bytes, (found, read)) =
      let key : user_key meta ≡ user_key old = unfold user_key in ap format_uint uid in
      let at_key : B.get (user_key meta) x.user_cache ≡ ok bytes = rw key found in
      elim (Bool-cases (same_user equal meta old)) [
        | inl same ↦
            let unchanged : index_user B codec equal meta x ≡ x = ground arith in
            rw (unchanged, fill_same equal meta old exact uid same) (bytes, (found, read))
        | inr news ↦
            let synced : index_user B codec equal meta x
                ≡ sync_user B codec equal (codes "userInfoMeta") (fill_user meta old) x =
              ground arith in
            rw synced
              (sync_user-Holds laws wire stored (codes "userInfoMeta") (fill_user meta old) x)
      ]

  index_users-kept :
      CacheLaws B
      → CodecLaws codec
      → EqualLaws equal
      → ((k : Text) (v : Bytes) (s : B.Store) → (B.set k v s).0 ≡ none)
      → (old : UserInfoMeta) (metas : List UserInfoMeta) (x : Index B codec equal)
      → All (λ (meta : UserInfoMeta). meta.uid ≡ old.uid) metas
      → Holds old x
      → Holds (merged old metas) (index_users B codec equal metas x)
  unfolding index_users fill_user
  index_users-kept laws wire exact stored old [] x same held = held
  index_users-kept laws wire exact stored old (meta ∷ metas) x same held =
      rw (← (merged-fill_user meta old metas same.0)) (
        index_users-kept laws wire exact stored (fill_user meta old) metas
          (index_user B codec equal meta x) (All-map (λ m e. e ∙ sym (same.0 ∙ refl)) metas same.1)
          (index_user-Holds laws wire exact stored meta old x same.0 held))

  -- After any sequence of metas of one user, of whom the cache had none, the cache has all of them
  -- put together: each field is the last value that one of them gave for it, so what a meta leaves out
  -- is not lost. Asked for are a cache that stores, the round trip of the encoding, and that
  -- `compare.Equal` tells values apart.
  pub index_users-Holds :
      CacheLaws B
      → CodecLaws codec
      → EqualLaws equal
      → ((k : Text) (v : Bytes) (s : B.Store) → (B.set k v s).0 ≡ none)
      → (first : UserInfoMeta) (metas : List UserInfoMeta) (x : Index B codec equal)
      → B.get (user_key first) x.user_cache ≡ err entry_not_found
      → All (λ (meta : UserInfoMeta). meta.uid ≡ first.uid) metas
      → Holds (merged first metas) (index_users B codec equal (first ∷ metas) x)
  unfolding index_users index_user
  index_users-Holds laws wire exact stored first metas x missing same =
      let new : index_user B codec equal first x
          ≡ sync_user B codec equal (codes "userInfo") first x =
        ground arith in
      index_users-kept laws wire exact stored first metas (index_user B codec equal first x) same
        (rw new (sync_user-Holds laws wire stored (codes "userInfo") first x))
