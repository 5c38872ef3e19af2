-- ===== src/Damaku/Wash/Files.antt =====
-- io-bilive-damaku/cmd/wash.go: a whole file keeps its medals in order.
use focot_services.Prelude.{
  if◌then◌else◌, Text, codes, ◌≡◌, refl, sym, ap, ◌∙◌, Bool, true, false, Option, none, some, List,
  [], ◌∷◌, ◌++◌, arith,
}
use focot_services.Prelude.Results.{Result, ok, ok-Passed, value_or, Fault}
use focot_services.Damaku.Messages.{UserInfoMeta, FansMedalMeta}
use focot_services.Damaku.Raw.{stamp, danmu, gift, guard, super_chat}
use focot_services.Damaku.Wash.Store.{
  Library, Token, start_element, other_token, zero_user, zero_medal, zero_damaku, zero_gift,
  zero_super_chat, BliveData, update_user, update_medal,
}
use focot_services.Damaku.Wash.Tokens.{
  is_named, version_attr, info_attr, damaku_raw, gift_raw, super_chat_raw, guard_raw, raw_attr,
  each_attr, attr_parse, final_listing, washer,
}
use focot_services.Damaku.Wash.Metas.{medal_at, HasKeys, update_medal-HasKeys}

-- A test that leads to one of two results, each of which is enough.
if_either :
    {A : Type 0} {P : Type 0} (test : Bool) (x y : Result Fault A) (b : A)
    → (x ≡ ok b → P)
    → (y ≡ ok b → P)
    → (if test then x else y) ≡ ok b
    → P
if_either true x y b f g h = f h
if_either false x y b f g h = g h

module _ (L : Library) where
  -- What a step that succeeds keeps.
  abbrev Keeps : (BliveData L → Result Fault (BliveData L)) → Type 0
  Keeps step = (b b' : BliveData L) → step b ≡ ok b' → HasKeys L b → HasKeys L b'

  same_medals : (b b' : BliveData L) → b'.map_medal ≡ b.map_medal → HasKeys L b → HasKeys L b'
  unfolding HasKeys medal_at
  same_medals b b' same keyed uid room m h = keyed uid room m (rw (← same) h)

  stored-HasKeys :
      (user : UserInfoMeta) (medal : FansMedalMeta) (b b' : BliveData L)
      → update_medal L medal (update_user L user b) ≡ b'
      → HasKeys L b
      → HasKeys L b'
  stored-HasKeys user medal b b' is keyed = rw (← is) (
      (update_medal-HasKeys L medal (update_user L user b)
        (same_medals b (update_user L user b) (unfold update_user in refl) keyed)).0)

  damaku_raw-Keeps : (raw : Text) → Keeps (damaku_raw L raw)
  unfolding damaku_raw danmu stamp
  damaku_raw-Keeps raw b b' h keyed =
      let read =
        value_or (zero_user, zero_medal, zero_damaku)
          (danmu (L.parse_json raw) zero_user zero_medal zero_damaku) in
      stored-HasKeys read.0 read.1 (record b { damaku = b.damaku ++ read.2 ∷ [] }) b'
        (ap (value_or b) h) (same_medals b _ refl keyed)

  gift_raw-Keeps : (raw : Text) → Keeps (gift_raw L raw)
  unfolding gift_raw gift stamp
  gift_raw-Keeps raw b b' h keyed =
      let read =
        value_or (zero_user, zero_medal, zero_gift)
          (gift (L.parse_json raw) zero_user zero_medal zero_gift) in
      stored-HasKeys read.0 read.1 (record b { gifts = b.gifts ++ read.2 ∷ [] }) b'
        (ap (value_or b) h) (same_medals b _ refl keyed)

  super_chat_raw-Keeps : (raw : Text) → Keeps (super_chat_raw L raw)
  unfolding super_chat_raw super_chat stamp
  super_chat_raw-Keeps raw b b' h keyed =
      let read =
        value_or (zero_user, zero_medal, zero_super_chat)
          (super_chat (L.parse_json raw) zero_user zero_medal zero_super_chat) in
      stored-HasKeys read.0 read.1 (record b { super_chats = b.super_chats ++ read.2 ∷ [] }) b'
        (ap (value_or b) h) (same_medals b _ refl keyed)

  guard_raw-Keeps : (raw : Text) → Keeps (guard_raw L raw)
  unfolding guard_raw guard stamp
  guard_raw-Keeps raw b b' h keyed =
      same_medals b b'
        (ap (λ x. x.map_medal) (sym (ap (value_or b) h)) ∙ (unfold update_user in refl)) keyed

  raw_attr-Keeps :
      (on_raw : Text → BliveData L → Result Fault (BliveData L))
      → ((raw : Text) → Keeps (on_raw raw))
      → (a : Text × Text) → Keeps (raw_attr L on_raw a)
  raw_attr-Keeps on_raw keeps (local, value) b b' h keyed =
      if_either (is_named (codes "raw") local) (on_raw value b) (ok b) b'
        (λ is. keeps value b b' is keyed) (λ is. rw (← (ap (value_or b) is)) keyed) h

  each_attr-Keeps :
      (on_attr : Text × Text → BliveData L → Result Fault (BliveData L))
      → ((a : Text × Text) → Keeps (on_attr a))
      → (attrs : List (Text × Text)) → Keeps (each_attr L on_attr attrs)
  each_attr-Keeps on_attr keeps [] b b' h keyed = rw (← (ap (value_or b) h)) keyed
  each_attr-Keeps on_attr keeps (a ∷ attrs) b b' h keyed =
      let p = ok-Passed (on_attr a b) (each_attr L on_attr attrs) b' h in
      each_attr-Keeps on_attr keeps attrs p.value b' p.onward (keeps a b p.value p.reached keyed)

  map_medal-version_attr :
      (local value : Text) (b : BliveData L)
      → (version_attr L (local, value) b).map_medal ≡ b.map_medal
  unfolding version_attr
  map_medal-version_attr local value b = ground arith

  map_medal-info_attr :
      (local value : Text) (b : BliveData L)
      → (info_attr L (local, value) b).map_medal ≡ b.map_medal
  unfolding info_attr
  map_medal-info_attr local value b = ground arith

  version_attr-Keeps : (a : Text × Text) → Keeps (λ b. ok (version_attr L a b))
  version_attr-Keeps (local, value) b b' h keyed =
      same_medals b b'
        (ap (λ x. x.map_medal) (sym (ap (value_or b) h)) ∙ map_medal-version_attr local value b)
        keyed

  info_attr-Keeps : (a : Text × Text) → Keeps (λ b. ok (info_attr L a b))
  info_attr-Keeps (local, value) b b' h keyed =
      same_medals b b'
        (ap (λ x. x.map_medal) (sym (ap (value_or b) h)) ∙ map_medal-info_attr local value b) keyed

  attr_parse-Keeps : (t : Token) → Keeps (attr_parse L t)
  unfolding attr_parse
  attr_parse-Keeps other_token b b' h keyed = rw (← (ap (value_or b) h)) keyed
  attr_parse-Keeps (start_element name attrs) b b' h keyed =
      if_either (is_named (codes "BililiveRecorder") name) _ _ b'
        (λ is.
          each_attr-Keeps (λ a c. ok (version_attr L a c)) version_attr-Keeps attrs b b' is keyed)
        (if_either (is_named (codes "BililiveRecorderRecordInfo") name) _ _ b'
          (λ is. each_attr-Keeps (λ a c. ok (info_attr L a c)) info_attr-Keeps attrs b b' is keyed)
          (if_either (is_named (codes "d") name) _ _ b'
            (λ is.
              each_attr-Keeps (raw_attr L (damaku_raw L))
                (raw_attr-Keeps (damaku_raw L) damaku_raw-Keeps) attrs b b' is keyed)
            (if_either (is_named (codes "gift") name) _ _ b'
              (λ is.
                each_attr-Keeps (raw_attr L (gift_raw L))
                  (raw_attr-Keeps (gift_raw L) gift_raw-Keeps) attrs b b' is keyed)
              (if_either (is_named (codes "sc") name) _ _ b'
                (λ is.
                  each_attr-Keeps (raw_attr L (super_chat_raw L))
                    (raw_attr-Keeps (super_chat_raw L) super_chat_raw-Keeps) attrs b b' is keyed)
                (if_either (is_named (codes "guard") name) _ _ b'
                  (λ is.
                    each_attr-Keeps (raw_attr L (guard_raw L))
                      (raw_attr-Keeps (guard_raw L) guard_raw-Keeps) attrs b b' is keyed)
                  (λ is. rw (← (ap (value_or b) is)) keyed))))))
        h

  -- A file that is read to its end, from data whose medals stand under their users and their rooms,
  -- ends with such data, whatever its tokens are.
  pub washer-HasKeys :
      (tokens : List (Option Token)) (b out : BliveData L)
      → HasKeys L b
      → washer L tokens b ≡ ok (some out)
      → HasKeys L out
  unfolding washer final_listing
  washer-HasKeys [] b out keyed h =
      let is : some (final_listing L b) ≡ some out = ap (value_or none) h in
      let eq : final_listing L b ≡ out = cc in
      same_medals b out (ap (λ x. x.map_medal) (sym eq)) keyed
  washer-HasKeys (none ∷ tokens) b out keyed h = absurd (cc)
  washer-HasKeys (some t ∷ tokens) b out keyed h =
      let p = ok-Passed (attr_parse L t b) (washer L tokens) (some out) h in
      washer-HasKeys tokens p.value out (attr_parse-Keeps t b p.value p.reached keyed) p.onward
