-- ===== src/Damaku/Agent/Indexer/Tests.antt =====
-- The index of an agent whose messages are written field by field, and whose cache never fails.
use focot_services.Prelude.{
  length, Text, codes, ℕ, zero, suc, ◌≡◌, refl, ap, false, Option, none, some, [], ◌∷◌, ◌++◌,
}
use focot_services.Damaku.Messages.{UserInfoMeta, CompareEqual}
use focot_services.Damaku.Cache.{Bytes}
use focot_services.Damaku.Cache.Table.{table, table-CacheLaws}
use focot_services.Damaku.Agent.Indexer.{Codec, Index, index_users}
use focot_services.Damaku.Agent.Indexer.Merged.{EqualLaws, CodecLaws, Holds, index_users-Holds}

-- A text behind its length, and an optional value behind its presence.
abbrev put_text : Text → Bytes → Bytes
put_text t rest = length t ∷ (t ++ rest)

abbrev put_optional : Option ℕ → Bytes → Bytes
put_optional none rest = 0 ∷ rest
put_optional (some n) rest = 1 ∷ n ∷ rest

abbrev put_face : Option Text → Bytes → Bytes
put_face none rest = 0 ∷ rest
put_face (some t) rest = 1 ∷ put_text t rest

abbrev write : UserInfoMeta → Bytes
write meta =
    put_text meta.user_name (
      put_face meta.face (put_optional meta.level (put_optional meta.wealth_level (meta.uid ∷ []))))

abbrev cut : ℕ → Bytes → Text × Bytes
cut zero bytes = ([], bytes)
cut (suc n) [] = ([], [])
cut (suc n) (c ∷ bytes) = let (t, rest) = cut n bytes in (c ∷ t, rest)

abbrev get_text : Bytes → Text × Bytes
get_text [] = ([], [])
get_text (n ∷ bytes) = cut n bytes

abbrev get_optional : Bytes → Option ℕ × Bytes
get_optional (suc _ ∷ n ∷ bytes) = (some n, bytes)
get_optional (zero ∷ bytes) = (none, bytes)
get_optional bytes = (none, bytes)

abbrev get_face : Bytes → Option Text × Bytes
get_face (suc _ ∷ bytes) = let (t, rest) = get_text bytes in (some t, rest)
get_face (zero ∷ bytes) = (none, bytes)
get_face [] = (none, [])

abbrev get_uid : Bytes → ℕ
get_uid [] = 0
get_uid (n ∷ _) = n

abbrev read : Bytes → UserInfoMeta
read bytes =
    let (name, behind_name) = get_text bytes in
    let (face, behind_face) = get_face behind_name in
    let (level, behind_level) = get_optional behind_face in
    let (wealth_level, behind_wealth) = get_optional behind_level in
    record {
      uid = get_uid behind_wealth;
      user_name = name;
      face = face;
      level = level;
      wealth_level = wealth_level;
    }

cut-append : (t rest : Bytes) → cut (length t) (t ++ rest) ≡ (t, rest)
cut-append [] rest = refl
cut-append (c ∷ t) rest = rw (cut-append t rest) refl

get_face-put_face :
    (face : Option Text) (rest : Bytes) → get_face (put_face face rest) ≡ (face, rest)
get_face-put_face none rest = refl
get_face-put_face (some t) rest = rw (cut-append t rest) refl

get_optional-put_optional :
    (n : Option ℕ) (rest : Bytes) → get_optional (put_optional n rest) ≡ (n, rest)
get_optional-put_optional none rest = refl
get_optional-put_optional (some n) rest = refl

read-write : (meta : UserInfoMeta) → read (write meta) ≡ meta
read-write meta =
    rw
      (cut-append meta.user_name (
        put_face meta.face
          (put_optional meta.level (put_optional meta.wealth_level (meta.uid ∷ [])))))
      (rw
        (get_face-put_face meta.face
          (put_optional meta.level (put_optional meta.wealth_level (meta.uid ∷ []))))
        (rw (get_optional-put_optional meta.level (put_optional meta.wealth_level (meta.uid ∷ [])))
          (rw (get_optional-put_optional meta.wealth_level (meta.uid ∷ [])) refl)))

abbrev codec : Codec
codec = record {
  encode_user = λ meta. some (write meta);
  decode_user = λ bytes. some (read bytes);
  encode_medal = λ meta. none;
  decode_medal = λ bytes. none;
}

codec-CodecLaws : CodecLaws codec
codec-CodecLaws = record { user = λ meta. (write meta, (refl, ap some (read-write meta))) }

-- `compare.Equal` with the least that is asked for: it never says that values are equal.
abbrev never_equal : CompareEqual
never_equal = record { text = λ a b. false; number = λ a b. false }

never_equal-EqualLaws : EqualLaws never_equal
never_equal-EqualLaws = record { text = λ a b e. cc; number = λ a b e. cc }

abbrev user_7 : UserInfoMeta
user_7 = record {
  uid = 7;
  user_name = codes "u";
  face = some (codes "f");
  level = none;
  wealth_level = none;
}

-- The same user without the face, under a new name, and with a level.
abbrev renamed : UserInfoMeta
renamed = record user_7 { user_name = codes "v"; face = none }

abbrev risen : UserInfoMeta
risen = record renamed { level = some 3 }

abbrev unknown : Index table codec never_equal
unknown = record { user_cache = []; medal_cache = []; published = [] }

index_users-Holds_example :
    Holds table codec never_equal
      (record risen { face = some (codes "f") })
      (index_users table codec never_equal (user_7 ∷ renamed ∷ risen ∷ []) unknown)
index_users-Holds_example =
    index_users-Holds table codec never_equal table-CacheLaws codec-CodecLaws never_equal-EqualLaws
      (λ k v s. refl) user_7 (renamed ∷ risen ∷ []) unknown refl (refl, (refl, tt))
