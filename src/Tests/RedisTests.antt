-- ===== src/Tests/RedisTests.antt =====
-- The event cache at inputs.
use eventhub.Prelude.{
  ℕ, ◌≡◌, refl, true, false, codes, ◌∷◌, [], some, map, arith, Bytes, List, stoull, digits,
  bytes_eq,
}
use eventhub.Redis.CacheMeta.{CacheItemMeta, to_str, from_str, from_str-to_str}
use eventhub.Redis.Server.{RedisServer}
use eventhub.Redis.{
  RedisConfig, live_metas, pair_items, origin_of, get_cache_since, get_cache_since_id,
}
use eventhub.Redis.SinceId.{Event, id_text, cached, events_since, get_cache_since_id_lem}
use eventhub.Tests.RpcTests.{counter}

from_str-to_str_example :
    from_str (to_str (record { id = codes "17-0"; expire_at = 1700; origin = codes "me" }))
    ≡ some (record { id = codes "17-0"; expire_at = 1700; origin = codes "me" })
from_str-to_str_example =
    from_str-to_str (record { id = codes "17-0"; expire_at = 1700; origin = codes "me" }) refl refl
      (omega arith)

abbrev event_at : ℕ → ℕ → Event
event_at timestamp seq_no = record {
  timestamp = timestamp;
  seq_no = seq_no;
  topic = codes "a";
  message = codes "m";
  origin = [];
}

abbrev three_events : List Event
three_events = event_at 17 0 ∷ event_at 17 1 ∷ event_at 18 0 ∷ []

-- One topic's members, the newest first, and a message for every id.
abbrev members : List Bytes
members = codes "18-0:25" ∷ codes "17-1:25" ∷ codes "17-0:10" ∷ []

abbrev cache : RedisServer ℕ
cache = record counter {
  zrevrangebyscore = λ k since limit s. (some members, s);
  hmget = λ k keys s. (some (map (λ key. some (codes "m")) keys), s);
}

abbrev settings : RedisConfig
settings = record { prefix = []; enable_cache = true; default_cache_ttl = 60 }

-- The event behind the one asked for in its millisecond, and the later one.
since_test : events_since 17 0 three_events ≡ cached (event_at 17 1) ∷ cached (event_at 18 0) ∷ []
since_test = refl

get_cache_since_id_lem_example :
    get_cache_since_id cache settings 1 (codes "a") (id_text 17 0) 100 false 0
    ≡ (some (events_since 17 0 three_events), 0)
unfolding get_cache_since stoull digits live_metas from_str pair_items origin_of bytes_eq
get_cache_since_id_lem_example =
    get_cache_since_id_lem cache settings 1 100 17 0 (codes "a") false three_events 0 0 refl
      (omega arith) (omega arith) (omega arith) (omega arith) refl

abbrev meta_at : Bytes → ℕ → CacheItemMeta
meta_at id expire_at = record { id = id; expire_at = expire_at; origin = [] }

abbrev metas : List CacheItemMeta
metas = meta_at (codes "17-0") 10 ∷ meta_at (codes "17-1") 25 ∷ meta_at (codes "18-0") 25 ∷ []
