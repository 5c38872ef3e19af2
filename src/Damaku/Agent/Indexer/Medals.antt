-- ===== src/Damaku/Agent/Indexer/Medals.antt =====
-- What the index does with a medal that comes again.
use focot_services.Prelude.{length, length-append, ◌+◌, ◌≤◌, ◌≡◌, none, some, arith}
use focot_services.Damaku.Messages.{FansMedalMeta, CompareEqual, medal_key}
use focot_services.Damaku.Messages.Keys.{same_medal_refl}
use focot_services.Damaku.Cache.{Bytes, BigCache, CacheLaws}
use focot_services.Damaku.Agent.Indexer.{Codec, Index, sync_meta, sync_medal, index_medal}

module _ (B : BigCache) (codec : Codec) (equal : CompareEqual) where
  -- A medal that comes twice in a row is published at most once, and the second time changes
  -- nothing, whatever the cache held. Asked for is that the medal comes back from its bytes, and
  -- that the cache stores it.
  pub index_medal_twice :
      CacheLaws B
      → (meta : FansMedalMeta) (bytes : Bytes) (x : Index B codec equal)
      → codec.encode_medal meta ≡ some bytes
      → codec.decode_medal bytes ≡ some meta
      → (B.set (medal_key meta) bytes x.medal_cache).0 ≡ none
      → (index_medal B codec equal meta (index_medal B codec equal meta x)
          ≡ index_medal B codec equal meta x)
        × (length (index_medal B codec equal meta x).published ≤ length x.published + 1)
  unfolding index_medal sync_medal sync_meta
  index_medal_twice laws meta bytes x encoded decoded stored =
      let back = laws.get-set_self (medal_key meta) bytes x.medal_cache stored in
      let same = same_medal_refl meta in (ground arith, grind (arith, length-append))
