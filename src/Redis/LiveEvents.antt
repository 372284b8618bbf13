-- ===== src/Redis/LiveEvents.antt =====
-- Which cached events of a topic `getCacheSince` of src/Redis.cpp looks up and returns.
use eventhub.Prelude.{
  ℕ, ◌≡◌, ◌<◌, ◌^◌, Bool, true, false, List, [], ◌∷◌, map, Option, none, some, if◌then◌else◌, ltb,
  leb, ◌==◌, Bytes, bytes_eq, length, any,
}
use eventhub.Redis.Server.{Run, RedisServer, pure, ◌>>=◌, ◌>>◌}
use eventhub.Redis.CacheMeta.{CacheItemMeta}
use eventhub.Redis.{
  RedisConfig, CacheItem, redis_cache_score_path, redis_cache_data_path, origin_of, pair_items,
}

-- The meta data can be read back from the member of the score set: see `from_str-to_str`.
abbrev pub IsReadable : CacheItemMeta → Type 0
IsReadable m =
    (any (λ c. c == b':') m.id ≡ false)
    × (any (λ c. c == b':') m.origin ≡ false)
    × (m.expire_at < 2 ^ 64)

abbrev pub has_id : Bytes → List CacheItemMeta → Bool
has_id id = any (λ m. bytes_eq (CacheItemMeta.id m) id)

-- No two have the same id.
abbrev pub AreDistinct : List CacheItemMeta → Type 0
AreDistinct [] = Unit {0}
AreDistinct (m ∷ metas) = (has_id m.id metas ≡ false) × AreDistinct metas

abbrev is_live : ℕ → CacheItemMeta → Bool
is_live now m = leb now m.expire_at

module _ (topic : Bytes) (fields : Bytes → Option Bytes) where
  -- The event, if its message is still stored, in front of the others.
  abbrev pub with_event : CacheItemMeta → Option Bytes → List CacheItem → List CacheItem
  with_event m none items = items
  with_event m (some message) items =
      record { id = m.id; topic = topic; message = message; origin = m.origin } ∷ items

  -- The events that have not expired by `now` and whose message is stored, in order.
  abbrev pub live_events : ℕ → List CacheItemMeta → List CacheItem
  live_events now [] = []
  live_events now (m ∷ metas) =
      if leb now m.expire_at
      then with_event m (fields m.id) (live_events now metas)
      else live_events now metas

  abbrev events_of : List CacheItemMeta → List CacheItem
  events_of [] = []
  events_of (m ∷ metas) = with_event m (fields m.id) (events_of metas)

-- The origin stored for an id is that of the event with the id.
abbrev HasOrigin : List CacheItemMeta → CacheItemMeta → Type 0
HasOrigin all m = (has_id m.id all ≡ true) × (origin_of m.id all ≡ m.origin)

module _ {S : Type 0} (redis : RedisServer S) (config : RedisConfig) (topic : Bytes) where
  -- The field's values of the topic's hash, in the state s.
  abbrev pub StoresFields : (Bytes → Option Bytes) → S → Type 0
  StoresFields fields s =
      (keys : List Bytes)
      → RedisServer.hmget redis (redis_cache_data_path config.prefix topic) keys s
        ≡ (some (map fields keys), s)

  -- What is done with the values of the fields.
  match_items : List CacheItemMeta → List (Option Bytes) → Run S (List CacheItem)
  match_items metas items =
      let cache_keys = map (λ m. CacheItemMeta.id m) metas in
      if length items == length cache_keys
      then pure (pair_items topic metas cache_keys items)
      else do
        RedisServer.del redis (
            redis_cache_data_path config.prefix topic
            ∷ redis_cache_score_path config.prefix topic
            ∷ [])
        pure []

  -- What is done with the meta data of the events that have not expired.
  look_up : List CacheItemMeta → Run S (List CacheItem)
  unfolding match_items
  look_up metas =
      let cache_keys = map (λ m. CacheItemMeta.id m) metas in
      if ltb (length cache_keys) 1
      then pure []
      else RedisServer.hmget redis (redis_cache_data_path config.prefix topic) cache_keys
        >>= match_items metas
