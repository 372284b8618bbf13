-- ===== src/Redis.antt =====
-- src/Redis.cpp and include/Redis.hpp: the keys, the event cache, the rate limits and publishing.
pub mod Server
pub mod CacheMeta
pub mod SinceId
pub mod LiveEvents
use eventhub.Prelude.{
  ℕ, ◌+◌, ◌-◌, ◌*◌, ◌%◌, ◌^◌, Bool, true, false, not, ◌&&◌, ◌||◌, List, [], ◌∷◌, ◌++◌, map, reverse,
  filter, take_until, Option, none, some, ltb, leb, ◌==◌, if◌then◌else◌, length, drop, is_empty,
  any, Bytes, bytes_eq, codes, decimal, stoull,
}
use eventhub.Topics.{is_filter_matched}
use eventhub.Redis.Server.{Run, RedisServer, pure, or_throw, ◌>>=◌, ◌>>◌}
use eventhub.Redis.CacheMeta.{CacheItemMeta, to_str, from_str}

-- The macros REDIS_PREFIX, REDIS_CACHE_SCORE_PATH, REDIS_CACHE_DATA_PATH and REDIS_RATE_LIMIT_PATH;
-- the last prefixes the prefix, which the program passes as the key.
unfoldable pub redis_prefix : Bytes → Bytes → Bytes
redis_prefix prefix key = if not (is_empty prefix) then prefix ++ codes ":" ++ key else key

unfoldable pub redis_cache_score_path : Bytes → Bytes → Bytes
unfolding redis_prefix
redis_cache_score_path prefix key = redis_prefix prefix key ++ codes ":scores"

unfoldable pub redis_cache_data_path : Bytes → Bytes → Bytes
unfolding redis_prefix
redis_cache_data_path prefix key = redis_prefix prefix key ++ codes ":cache"

unfoldable pub redis_rate_limit_path : Bytes → Bytes → Bytes → Bytes
unfolding redis_prefix
redis_rate_limit_path prefix subject topic =
    redis_prefix prefix prefix ++ codes ":rlimit:" ++ topic ++ codes ":" ++ subject

-- The settings that the code reads.
pub record RedisConfig : Type 0 where
  pub prefix : Bytes
  pub enable_cache : Bool
  pub default_cache_ttl : ℕ

-- An element of the result of `getCacheSince`; `origin` is missing from the JSON object when it is
-- empty.
pub record CacheItem : Type 0 where
  pub id : Bytes
  pub topic : Bytes
  pub message : Bytes
  pub origin : Bytes

-- The order of `long long`, on the 64 bits of its values.
unfoldable pub signed_lt : ℕ → ℕ → Bool
signed_lt a b = ltb ((a + 2 ^ 63) % 2 ^ 64) ((b + 2 ^ 63) % 2 ^ 64)

unfoldable pub split_id_and_seq : Bytes → Option (ℕ × ℕ)
split_id_and_seq cache_id =
    let head = take_until b'-' cache_id in
    if length head == length cache_id || length head == 0 then none else elim (stoull head) [
      | none ↦ none
      | some timestamp ↦ elim (stoull (drop (length head + 1) cache_id)) [
        | none ↦ none
        | some seq ↦ some (timestamp, seq)
      ]
    ]

-- The loop over the keys of the score set: the ids not expired, and their origins.
unfoldable pub live_metas : ℕ → List Bytes → List CacheItemMeta
live_metas now [] = []
live_metas now (z_key ∷ z_keys) =
    let rest = live_metas now z_keys in
    elim (from_str z_key) [ none ↦ rest | some p ↦ if leb now p.expire_at then p ∷ rest else rest ]

-- `originIdMap[id]`: the last origin stored for an id.
unfoldable pub origin_of : Bytes → List CacheItemMeta → Bytes
origin_of id [] = []
origin_of id (m ∷ ms) =
    let rest = origin_of id ms in
    if any (λ q. bytes_eq q.id id) ms then rest else if bytes_eq m.id id then m.origin else []

unfoldable pub pair_items :
    Bytes → List CacheItemMeta → List Bytes → List (Option Bytes) → List CacheItem
pair_items topic metas (key ∷ keys) (some message ∷ items) =
    record { id = key; topic = topic; message = message; origin = origin_of key metas }
    ∷ pair_items topic metas keys items
pair_items topic metas (key ∷ keys) (none ∷ items) = pair_items topic metas keys items
pair_items topic metas _ _ = []

-- One pass of the loop of `getCacheSinceId`: `loop` is the rest of it, as a function of
-- `sinceIdFound`, and none stands for the result cleared.
unfoldable pub since_id_step :
    ℕ
    → ℕ
    → CacheItem
    → Bool
    → (Bool → Option (List CacheItem))
    → Option (ℕ × ℕ)
    → Option (List CacheItem)
unfolding signed_lt
since_id_step timestamp seq_no elm since_id_found loop none = none
since_id_step timestamp seq_no elm since_id_found loop (some (elm_timestamp, elm_seq_no)) =
    if (signed_lt timestamp elm_timestamp
        || (elm_timestamp == timestamp && signed_lt seq_no elm_seq_no))
      && not since_id_found
    then none
    else if elm_timestamp == timestamp && not (signed_lt seq_no elm_seq_no)
    then loop (if elm_seq_no == seq_no then true else since_id_found)
    else elim (loop since_id_found) [ none ↦ none | some kept ↦ some (elm ∷ kept) ]

unfoldable pub after_since_id : ℕ → ℕ → Bool → List CacheItem → Option (List CacheItem)
unfolding since_id_step split_id_and_seq
after_since_id timestamp seq_no since_id_found [] = if since_id_found then some [] else none
after_since_id timestamp seq_no since_id_found (elm ∷ elms) =
    since_id_step timestamp seq_no elm since_id_found
      (λ found. after_since_id timestamp seq_no found elms) (split_id_and_seq elm.id)

module _ {S : Type 0} (redis : RedisServer S) (config : RedisConfig) where
  abbrev score_path : Bytes → Bytes
  score_path topic = redis_cache_score_path config.prefix topic

  abbrev data_path : Bytes → Bytes
  data_path topic = redis_cache_data_path config.prefix topic

  -- `dump` is the json library's printing of a message object.
  unfoldable pub publish_message :
      (Bytes → Bytes → Bytes → Bytes → Bytes) → Bytes → Bytes → Bytes → Bytes → Run S (Unit {0})
  publish_message dump topic id payload origin =
      RedisServer.publish redis (redis_prefix config.prefix topic) (dump topic id payload origin)

  unfoldable pub get_next_cache_id : ℕ → Run S Bytes
  get_next_cache_id timestamp = do
    let id_key = redis_prefix config.prefix (codes "id:" ++ decimal timestamp)
    id ← RedisServer.incr redis id_key
    RedisServer.expire redis id_key 1
    pure (decimal timestamp ++ codes "-" ++ decimal (id - 1))

  unfoldable pub cache_message : ℕ → Bytes → Bytes → Bytes → ℕ → ℕ → Run S Bytes
  unfolding get_next_cache_id
  cache_message now topic payload origin timestamp ttl = do
    let timestamp' = if timestamp == 0 then now else timestamp
    cache_id ← get_next_cache_id timestamp'
    let ttl' = if ttl == 0 then config.default_cache_ttl else ttl
    let expire_at = (now + ttl' * 1000) % 2 ^ 64
    if not config.enable_cache then pure cache_id else do
      RedisServer.hset redis (data_path topic) cache_id payload
      RedisServer.zadd redis (score_path topic)
          (to_str (record { id = cache_id; expire_at = expire_at; origin = origin })) timestamp'
      RedisServer.hincrby redis (redis_prefix config.prefix (codes "pub_count")) topic 1
      pure cache_id

  unfoldable pub get_topics_seen : Bytes → Run S (List Bytes)
  get_topics_seen topic_pattern = do
    all_topics ← RedisServer.hkeys redis (redis_prefix config.prefix (codes "pub_count"))
    pure (filter (λ topic. is_filter_matched topic_pattern topic) all_topics)

  -- One pass of the loop over the topics.
  unfoldable pub topic_cache : ℕ → ℕ → ℕ → Bytes → Run S (List CacheItem)
  topic_cache now since limit topic = do
    z_keys ← RedisServer.zrevrangebyscore redis (score_path topic) since limit
    let metas = live_metas now (reverse z_keys)
    let cache_keys = map (λ m. CacheItemMeta.id m) metas
    if ltb (length cache_keys) 1 then pure [] else do
      items ← RedisServer.hmget redis (data_path topic) cache_keys
      if length items == length cache_keys
          then pure (pair_items topic metas cache_keys items)
          else do RedisServer.del redis (data_path topic ∷ score_path topic ∷ []); pure []

  unfoldable pub topics_cache : ℕ → ℕ → ℕ → List Bytes → Run S (List CacheItem)
  unfolding topic_cache
  topics_cache now since limit [] = pure []
  topics_cache now since limit (topic ∷ topics) = do
    items ← topic_cache now since limit topic
    rest ← topics_cache now since limit topics
    pure (items ++ rest)

  unfoldable pub get_cache_since : ℕ → Bytes → ℕ → ℕ → Bool → Run S (List CacheItem)
  unfolding topics_cache get_topics_seen
  get_cache_since now topic_pattern since limit is_pattern =
      if not config.enable_cache then pure [] else do
        topics ← if is_pattern then get_topics_seen topic_pattern else pure (topic_pattern ∷ [])
        topics_cache now since limit topics

  unfoldable pub caught : Option (List CacheItem) × S → Option (List CacheItem) × S
  caught (none, s) = (some [], s)
  caught (some items, s) = (some items, s)

  -- Everything that is thrown is caught, and the result is then empty.
  unfoldable pub get_cache_since_id : ℕ → Bytes → Bytes → ℕ → Bool → Run S (List CacheItem)
  unfolding get_cache_since caught split_id_and_seq after_since_id
  get_cache_since_id now topic_pattern since_id limit is_pattern s =
      if not config.enable_cache then (some [], s) else elim (split_id_and_seq since_id) [
        | none ↦ (some [], s)
        | some (timestamp, seq_no) ↦
            if timestamp == 0
            then (some [], s)
            else caught (
                (do
                  items ← get_cache_since now topic_pattern timestamp limit is_pattern
                  or_throw (
                      if is_empty items
                      then some []
                      else after_since_id timestamp seq_no false items))
                  s)
      ]

  -- The expired keys of one topic.
  unfoldable pub expired_keys : ℕ → List Bytes → List Bytes
  expired_keys now [] = []
  expired_keys now (key ∷ keys) =
      let rest = expired_keys now keys in
      elim (from_str key) [
        | none ↦ rest
        | some p ↦ if ltb p.expire_at now then key ∷ rest else rest
      ]

  unfoldable pub find_expired : ℕ → List Bytes → Run S (List (Bytes × Bytes))
  unfolding expired_keys
  find_expired now [] = pure []
  find_expired now (topic ∷ topics) = do
    keys ← RedisServer.zrange redis (score_path topic)
    (if is_empty keys
        then RedisServer.hdel redis (redis_prefix config.prefix (codes "pub_count")) topic
        else pure tt)
    rest ← find_expired now topics
    pure (map (λ key. (topic, key)) (expired_keys now keys) ++ rest)

  unfoldable pub delete_expired : List (Bytes × Bytes) → Run S (Unit {0})
  delete_expired [] = pure tt
  delete_expired ((topic, key) ∷ expired) = do
    p ← or_throw (from_str key)
    RedisServer.zrem redis (score_path topic) key
    RedisServer.hdel redis (data_path topic) (CacheItemMeta.id p)
    delete_expired expired

  unfoldable pub purge_expired_cache_items : ℕ → Run S ℕ
  unfolding find_expired delete_expired
  purge_expired_cache_items now = do
    all_topics ← RedisServer.hkeys redis (redis_prefix config.prefix (codes "pub_count"))
    expired ← find_expired now all_topics
    delete_expired expired
    pure (length expired)

  unfoldable pub is_rate_limited : Bytes → Bytes → ℕ → Run S Bool
  is_rate_limited topic subject max = if max == 0 then pure false else do
    count ← RedisServer.get redis (redis_rate_limit_path config.prefix subject topic)
    elim count [ none ↦ pure false | some text ↦ do c ← or_throw (stoull text); pure (leb max c) ]

  unfoldable pub increment_limit_count : Bytes → Bytes → ℕ → Run S (Unit {0})
  increment_limit_count topic subject interval = if interval == 0 then pure tt else do
    let key = redis_rate_limit_path config.prefix subject topic
    count ← RedisServer.get redis key
    elim count [
      | none ↦ RedisServer.setex redis key interval (codes "1")
      | some text ↦ RedisServer.incr redis key >> pure tt
    ]

-- The topic of a message received, without the prefix of the server's channels.
unfoldable pub actual_topic : Bytes → Bytes → Bytes
actual_topic prefix topic = if ltb 0 (length prefix) then drop (length prefix + 1) topic else topic
