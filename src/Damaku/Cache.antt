-- ===== src/Damaku/Cache.antt =====
-- What the services use of the library bigcache, as a parameter: a store of bytes, whose calls may
-- fail. `CacheLaws` is what it documents of calls that do not fail, before an entry expires.
pub mod Table
use focot_services.Prelude.{Text, ℕ, ◌≡◌, ◌≢◌, Option, none, List}
use focot_services.Prelude.Results.{Result, ok}
pub use focot_services.Prelude.Results.{Fault, nil_dereference, unlock_of_unlocked, process_exit}

abbrev pub Bytes : Type 0
Bytes = List ℕ

-- `bigcache.ErrEntryNotFound`, and any other error.
pub data CacheError : Type 0 where
  entry_not_found cache_failure : CacheError

pub record BigCache : Type 1 where
  pub Store : Type 0
  pub get : Text → Store → Result CacheError Bytes
  -- `none` is the nil error.
  pub set : Text → Bytes → Store → Option CacheError × Store
  pub append : Text → Bytes → Store → Option CacheError × Store

pub record CacheLaws (B : BigCache) : Type 0 where
  pub get-set_self :
      (k : Text) (v : Bytes) (s : B.Store) → (B.set k v s).0 ≡ none → B.get k (B.set k v s).1 ≡ ok v
  pub get-set_ne :
      (k j : Text) (v : Bytes) (s : B.Store) → k ≢ j → B.get j (B.set k v s).1 ≡ B.get j s
  pub get-append_self :
      (k : Text) (v : Bytes) (s : B.Store)
      → (B.append k v s).0 ≡ none
      → (w : Bytes) × (B.get k (B.append k v s).1 ≡ ok w)
