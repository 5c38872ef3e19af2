-- ===== src/Damaku/Cache/Table.antt =====
-- A cache whose calls never fail, with the laws that the parameter asks for: for the tests.
use focot_services.Prelude.{
  lookup, insert, lookup-insert, Text, text_dec, ◌≡◌, ite, Option, none, some, List, [], ◌++◌,
  arith,
}
use focot_services.Prelude.Results.{Result, ok, err}
use focot_services.Damaku.Cache.{Bytes, CacheError, entry_not_found, BigCache, CacheLaws}

abbrev found : Option Bytes → Result CacheError Bytes
found none = err entry_not_found
found (some v) = ok v

abbrev or_empty : Option Bytes → Bytes
or_empty none = []
or_empty (some v) = v

abbrev pub table : BigCache
table = record {
  Store = List (Text × Bytes);
  get = λ k s. found (lookup text_dec k s);
  set = λ k v s. (none, insert text_dec k v s);
  append = λ k v s. (none, insert text_dec k (or_empty (lookup text_dec k s) ++ v) s);
}

stored :
    (k j : Text) (v : Bytes) (s : List (Text × Bytes))
    → found (lookup text_dec j (insert text_dec k v s))
      ≡ ite (text_dec k j) (ok v) (found (lookup text_dec j s))
stored k j v s = ground (arith, lookup-insert text_dec k j v s)

pub table-CacheLaws : CacheLaws table
table-CacheLaws = record {
  get-set_self = λ k v s e. ground (arith, stored k k v s);
  get-set_ne = λ k j v s n. ground (arith, stored k j v s);
  get-append_self = λ k v s e. (
    or_empty (lookup text_dec k s) ++ v,
    ground (arith, stored k k (or_empty (lookup text_dec k s) ++ v) s),
  );
}
