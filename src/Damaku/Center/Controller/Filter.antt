-- ===== src/Damaku/Center/Controller/Filter.antt =====
-- The duplicate filter, and what becomes of the messages that pass through it.
use focot_services.Prelude.{Text, ◌≡◌, none, some, arith}
use focot_services.Prelude.Results.{ok, err, ◌>>=◌}
use focot_services.Damaku.Messages.{CompareEqual}
use focot_services.Damaku.Cache.{Bytes, CacheError, BigCache, CacheLaws, nil_dereference}
use focot_services.Damaku.Center.Controller.{
  Kind, damaku, gift, guard, super_chat, Decoders, Agents, State, msg_duplicate_filter, on_damaku,
  on_gift, on_guard, on_super_chat, on_kind,
}

-- The kinds of messages that go through the filter.
pub data IsFiltered : Kind → Type 0 where
  damaku_filtered : IsFiltered damaku
  gift_filtered : IsFiltered gift
  guard_filtered : IsFiltered guard
  super_chat_filtered : IsFiltered super_chat

module _ (B : BigCache) (decode : Decoders) (equal : CompareEqual) (agents : Agents) where
  -- A message that goes through the duplicate filter never reaches `eventChan`: on every path that
  -- does not panic, the events are those from before.
  pub filtered_never_sent :
      (k : Kind) (bytes : Bytes) (s : State B decode equal agents)
      {s' : State B decode equal agents}
      → IsFiltered k
      → on_kind B decode equal agents (some k) bytes s ≡ ok s'
      → s'.events ≡ s.events
  unfolding on_kind on_damaku on_gift on_guard on_super_chat
  filtered_never_sent k bytes s damaku_filtered h = ground arith
  filtered_never_sent k bytes s gift_filtered h = ground arith
  filtered_never_sent k bytes s guard_filtered h = ground arith
  filtered_never_sent k bytes s super_chat_filtered h = ground arith

  -- The second of two messages with one key panics, if the first was appended to the cache: the
  -- message of a nil error is asked for.
  pub filter_twice :
      CacheLaws B
      → (k : Kind) (key : Text) (mask mask' : Bytes) (s : State B decode equal agents)
        {e : CacheError}
      → B.get key s.dup_cache ≡ err e
      → (B.append key mask s.dup_cache).0 ≡ none
      → (msg_duplicate_filter B decode equal agents k key mask s
          >>= msg_duplicate_filter B decode equal agents k key mask')
        ≡ err nil_dereference
  unfolding msg_duplicate_filter
  filter_twice laws k key mask mask' s miss stored =
      let (w, found) = laws.get-append_self key mask s.dup_cache stored in ground arith
