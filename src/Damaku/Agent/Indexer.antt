-- ===== src/Damaku/Agent/Indexer.antt =====
-- io-bilive-damaku/agent/agent.go: `metaIndexer`, which publishes the metas that are new and keeps
-- the latest of each user and medal. Protobuf and the cache are parameters; a publication is
-- recorded as the call, since its error is logged only.
mod Merged
mod Medals
mod Tests
use focot_services.Prelude.{
  ◌==◌, if◌then◌else◌, Text, codes, Option, none, some, List, [], ◌∷◌, ◌++◌,
}
use focot_services.Prelude.Results.{ok, err}
use focot_services.Damaku.Messages.{
  UserInfoMeta, FansMedalMeta, CompareEqual, same_user, same_medal, fill_user, user_key, medal_key,
}
use focot_services.Damaku.Cache.{Bytes, entry_not_found, cache_failure, BigCache}

-- `proto.Marshal` and `proto.Unmarshal` at the two types; `none` is an error.
pub record Codec : Type 0 where
  pub encode_user : UserInfoMeta → Option Bytes
  pub decode_user : Bytes → Option UserInfoMeta
  pub encode_medal : FansMedalMeta → Option Bytes
  pub decode_medal : Bytes → Option FansMedalMeta

-- A call of `mq.Publish`: the subject behind the prefix, and the data.
abbrev pub Published : Type 0
Published = Text × Bytes

module _ (B : BigCache) (codec : Codec) (equal : CompareEqual) where
  pub record Index : Type 0 where
    pub user_cache : B.Store
    pub medal_cache : B.Store
    pub published : List Published

  -- `syncMeta`: the cache behind it, and the calls of `Publish`. `none` is bytes that cannot be
  -- marshalled.
  pub sync_meta : Option Bytes → Text → Text → B.Store → B.Store × List Published
  sync_meta none key subject cache = (cache, [])
  sync_meta (some bytes) key subject cache =
      ((B.set key bytes cache).1, (codes ".stream." ++ subject, bytes) ∷ [])

  pub sync_user : Text → UserInfoMeta → Index → Index
  unfolding sync_meta
  sync_user subject meta x =
      let (cache, sent) = sync_meta (codec.encode_user meta) (user_key meta) subject x.user_cache in
      record x { user_cache = cache; published = x.published ++ sent }

  -- A meta from `userMetaChan`.
  pub index_user : UserInfoMeta → Index → Index
  unfolding sync_user
  index_user meta x = elim (B.get (user_key meta) x.user_cache) [
    | err entry_not_found ↦ sync_user (codes "userInfo") meta x
    | err cache_failure ↦ x
    | ok cached ↦ elim (codec.decode_user cached) [
      | none ↦ x
      | some old ↦
          if same_user equal meta old
          then x
          else sync_user (codes "userInfoMeta") (fill_user meta old) x
    ]
  ]

  pub sync_medal : FansMedalMeta → Index → Index
  unfolding sync_meta
  sync_medal meta x =
      let (cache, sent) =
        sync_meta (codec.encode_medal meta) (medal_key meta) (codes "fansMedal") x.medal_cache in
      record x { medal_cache = cache; published = x.published ++ sent }

  -- A meta from `medalMetaChan`.
  pub index_medal : FansMedalMeta → Index → Index
  unfolding sync_medal
  index_medal meta x =
      if meta.room_uid == 0 then x else elim (B.get (medal_key meta) x.medal_cache) [
        | err entry_not_found ↦ sync_medal meta x
        | err cache_failure ↦ x
        | ok cached ↦ elim (codec.decode_medal cached) [
          | none ↦ x
          | some old ↦ if same_medal meta old then x else sync_medal meta x
        ]
      ]

  -- `metaIndexer` over the user metas that come.
  pub index_users : List UserInfoMeta → Index → Index
  index_users [] x = x
  index_users (meta ∷ metas) x = index_users metas (index_user meta x)
