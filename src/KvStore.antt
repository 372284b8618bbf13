-- ===== src/KvStore.antt =====
-- The key-value store, src/KVStore.cpp and include/KVStore.hpp.
use eventhub.Prelude.{
  [], ◌∷◌, ℕ, Bool, none, some, ◌++◌, if◌then◌else◌, ltb, is_empty, Bytes, codes,
}
use eventhub.Redis.Server.{Run, RedisServer, pure, throw, try_catch, ◌>>=◌}

unfoldable pub prefix_key : Bytes → Bytes → Bytes
prefix_key prefix key =
    if is_empty prefix then codes "kv:" ++ key else prefix ++ codes ":kv:" ++ key

module _ {S : Type 0} (redis : RedisServer S) (prefix : Bytes) where
  unfoldable pub get : Bytes → Run S Bytes
  unfolding prefix_key
  get key = do
    value ← RedisServer.get redis (prefix_key prefix key)
    elim value [ none ↦ throw | some text ↦ pure text ]

  unfoldable pub set : Bytes → Bytes → ℕ → Run S Bool
  unfolding prefix_key
  set key value ttl =
      if ltb 0 ttl
      then RedisServer.set redis (prefix_key prefix key) value (some ttl)
      else RedisServer.set redis (prefix_key prefix key) value none

  unfoldable pub del : Bytes → Run S ℕ
  unfolding prefix_key
  del key = try_catch (RedisServer.del redis (prefix_key prefix key ∷ [])) (pure 0)
