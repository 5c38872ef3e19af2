-- ===== src/Damaku/Center/Controller/Metas.antt =====
-- The meta messages, the subjects, and the objects of the pools.
use focot_services.Prelude.{
  if◌then◌else◌, contains, last_part-split, Text, codes, text_dec, ℕ, ◌+◌, ◌≡◌, refl, ◌∙◌, ◌≢◌,
  Bool, false, none, some, List, [], ◌∷◌, ◌++◌, arith, ℕ_discrete,
}
use focot_services.Prelude.Results.{ok, err}
use focot_services.Damaku.Messages.{
  UserInfoMeta, FansMedalMeta, CompareEqual, same_user, fill_user, user_key, medal_key,
}
use focot_services.Damaku.Messages.Keys.{same_medal_refl}
use focot_services.Damaku.Cache.{Bytes, entry_not_found, BigCache, CacheLaws}
use focot_services.Damaku.Center.Controller.{
  Kind, fans_medal, user_info_meta, damaku, gift, guard, super_chat, online, online_v2,
  kind_of_name, Event, medal_event, user_event, damaku_event, gift_event, guard_event,
  super_chat_event, online_event, online_v2_event, Decoders, Agents, State, pool_put, on_medal,
  on_user, on_damaku, on_gift, on_guard, on_super_chat, on_online, on_online_v2, on_kind, aggregate,
}

-- The kind of the object of an event.
abbrev pub kind_of : Event → Kind
kind_of (medal_event _) = fans_medal
kind_of (user_event _) = user_info_meta
kind_of (damaku_event _) = damaku
kind_of (gift_event _) = gift
kind_of (guard_event _) = guard
kind_of (super_chat_event _) = super_chat
kind_of (online_event _) = online
kind_of (online_v2_event _) = online_v2

-- How many objects of some kinds are in the pools, and in the events sent on.
abbrev pub pooled_of : (Kind → Bool) → List Kind → ℕ
pooled_of p [] = 0
pooled_of p (k ∷ ks) = (if p k then 1 else 0) + pooled_of p ks

abbrev pub sent_of : (Kind → Bool) → List Event → ℕ
sent_of p [] = 0
sent_of p (e ∷ es) = (if p (kind_of e) then 1 else 0) + sent_of p es

pooled_of-concat :
    (p : Kind → Bool) (ks : List Kind) (k : Kind)
    → pooled_of p (ks ++ k ∷ []) ≡ pooled_of p ks + (if p k then 1 else 0)
pooled_of-concat p [] k = omega arith
pooled_of-concat p (x ∷ ks) k = omega (arith, pooled_of-concat p ks k)

sent_of-concat :
    (p : Kind → Bool) (es : List Event) (e : Event)
    → sent_of p (es ++ e ∷ []) ≡ sent_of p es + (if p (kind_of e) then 1 else 0)
sent_of-concat p [] e = omega arith
sent_of-concat p (x ∷ es) e = omega (arith, sent_of-concat p es e)

module _ (B : BigCache) (decode : Decoders) (equal : CompareEqual) (agents : Agents) where
  -- Every message of a known kind that does not panic gives its object away exactly once: it is sent
  -- on as an event of its kind, or it goes back to the pool of its kind. So for any kinds, there is
  -- one more object of them sent on or in the pools if the message is of one of them, and none else.
  pub on_kind-conserves :
      (p : Kind → Bool) (k : Kind) (bytes : Bytes) (s : State B decode equal agents)
      {s' : State B decode equal agents}
      → on_kind B decode equal agents (some k) bytes s ≡ ok s'
      → sent_of p s'.events + pooled_of p s'.pooled
        ≡ sent_of p s.events + pooled_of p s.pooled + (if p k then 1 else 0)
  unfolding on_kind on_medal on_user on_damaku on_gift on_guard on_super_chat on_online on_online_v2
  on_kind-conserves p fans_medal bytes s h = grind (arith, pooled_of-concat p, sent_of-concat p)
  on_kind-conserves p user_info_meta bytes s h = grind (arith, pooled_of-concat p, sent_of-concat p)
  on_kind-conserves p damaku bytes s h = grind (arith, pooled_of-concat p, sent_of-concat p)
  on_kind-conserves p gift bytes s h = grind (arith, pooled_of-concat p, sent_of-concat p)
  on_kind-conserves p guard bytes s h = grind (arith, pooled_of-concat p, sent_of-concat p)
  on_kind-conserves p super_chat bytes s h = grind (arith, pooled_of-concat p, sent_of-concat p)
  on_kind-conserves p online bytes s h = grind (arith, pooled_of-concat p, sent_of-concat p)
  on_kind-conserves p online_v2 bytes s h = grind (arith, pooled_of-concat p, sent_of-concat p)

  -- A medal message that was sent on, and stored, is dropped when it comes again: nothing more is
  -- sent, and nothing changes but the pool.
  pub medal_again :
      CacheLaws B
      → (bytes : Bytes) (meta : FansMedalMeta) (s : State B decode equal agents)
      → decode.medal bytes ≡ some meta
      → meta.room_uid ≢ 0
      → B.get (medal_key meta) s.medal_meta_cache ≡ err entry_not_found
      → (B.set (medal_key meta) bytes s.medal_meta_cache).0 ≡ none
      → (on_medal B decode equal agents bytes s).events ≡ s.events ++ medal_event meta ∷ []
        × (on_medal B decode equal agents bytes (on_medal B decode equal agents bytes s)
            ≡ pool_put B decode equal agents fans_medal (on_medal B decode equal agents bytes s))
  unfolding on_medal
  medal_again laws bytes meta s decoded worn miss stored =
      let back = laws.get-set_self (medal_key meta) bytes s.medal_meta_cache stored in
      let same = same_medal_refl meta in (ground arith, ground arith)

  -- What the controller has stored of a user is the last message as it came: a face that an earlier
  -- message gave, and that was filled in for the event sent, is not in the cache any more.
  pub user_cache_forgets :
      CacheLaws B
      → (bytes old_bytes : Bytes) (meta old : UserInfoMeta) (s : State B decode equal agents)
      → decode.user bytes ≡ some meta
      → B.get (user_key meta) s.user_meta_cache ≡ ok old_bytes
      → decode.user old_bytes ≡ some old
      → same_user equal meta old ≡ false
      → (B.set (user_key meta) bytes s.user_meta_cache).0 ≡ none
      → ((on_user B decode equal agents bytes s).events
          ≡ s.events ++ user_event (fill_user meta old) ∷ [])
        × (B.get (user_key meta) (on_user B decode equal agents bytes s).user_meta_cache ≡ ok bytes)
  unfolding on_user
  user_cache_forgets laws bytes old_bytes meta old s decoded found was differs stored = (
    ground arith,
    ground (arith, laws.get-set_self (user_key meta) bytes s.user_meta_cache stored),
  )

  -- The kind of a message is that of the name behind the last dot of its subject.
  pub aggregate-on_kind :
      (prefix name : Text) (bytes : Bytes) (s : State B decode equal agents)
      → contains ℕ_discrete name b'.' ≡ false
      → aggregate B decode equal agents (prefix ++ b'.' ∷ name) bytes s
        ≡ on_kind B decode equal agents (kind_of_name name) bytes s
  unfolding aggregate
  aggregate-on_kind prefix name bytes s plain = rw (last_part-split b'.' prefix name plain)

  -- A message under the name "userInfo" is ignored, whatever it holds.
  pub user_info_ignored :
      (prefix : Text) (bytes : Bytes) (s : State B decode equal agents)
      → aggregate B decode equal agents (prefix ++ b'.' ∷ codes "userInfo") bytes s ≡ ok s
  user_info_ignored prefix bytes s =
      aggregate-on_kind prefix (codes "userInfo") bytes s (unfold ℕ_discrete in refl)
      ∙ unfold kind_of_name on_kind text_dec ℕ_discrete in refl
