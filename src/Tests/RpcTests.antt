-- ===== src/Tests/RpcTests.antt =====
-- The RPC methods at inputs.
use eventhub.Prelude.{ℕ, refl, true, false, codes, [], none, some, suc}
use eventhub.AccessController.{new_access_controller}
use eventhub.Subscriptions.{new_world}
use eventhub.Redis.Server.{RedisServer}
use eventhub.Rpc.{Request, HandlerContext, RpcState, RpcMethod}
use eventhub.Rpc.Dispatch.{Entity, Returns, handle_request, handle_request-Returns}
use eventhub.WebSocket.Types.{parser_ok, text_frame}
use eventhub.Rpc.Handlers.Unauthenticated.{LeavesAsItWas, anonymous-IsHarmless}

-- A server that counts the commands.
abbrev pub counter : RedisServer ℕ
counter = record {
  get = λ k s. (some none, suc s);
  set = λ k v t s. (some true, suc s);
  del = λ ks s. (some 0, suc s);
  incr = λ k s. (some 1, suc s);
  expire = λ k t s. (some tt, suc s);
  setex = λ k t v s. (some tt, suc s);
  hset = λ k f v s. (some tt, suc s);
  hdel = λ k f s. (some tt, suc s);
  hkeys = λ k s. (some [], suc s);
  hmget = λ k fs s. (some [], suc s);
  hincrby = λ k f n s. (some tt, suc s);
  zadd = λ k m n s. (some tt, suc s);
  zrem = λ k m s. (some tt, suc s);
  zrange = λ k s. (some [], suc s);
  zrevrangebyscore = λ k a n s. (some [], suc s);
  publish = λ c m s. (some tt, suc s);
}

abbrev anonymous : HandlerContext ℕ
anonymous = record {
  server = counter;
  redis_config = record { prefix = []; enable_cache = true; default_cache_ttl = 60 };
  disable_auth = false;
  enable_kvstore = true;
  max_cache_request_limit = 100;
  connection = 1;
  access_controller = new_access_controller;
  now = 1000;
  what = [];
  dump = λ topic id payload origin. payload;
}

abbrev publish_request : Request
publish_request = record {
  request_id = codes "1";
  text = λ name. some (codes "a");
  number = λ name. none;
  elements = none;
}

abbrev idle : RpcState ℕ
idle = record { world = new_world; redis_state = 0; sent = []; is_shutdown = false }

anonymous-IsHarmless_example : LeavesAsItWas RpcMethod.publish_method anonymous publish_request idle
anonymous-IsHarmless_example =
    anonymous-IsHarmless anonymous RpcMethod.publish_method publish_request idle
      (record { enabled = refl; no_token = refl })

handle_request-Returns_example : Returns (
    handle_request anonymous
      (λ text. Entity.request (codes "Publish") publish_request)
      parser_ok
      text_frame
      (codes "{}")
      idle)
handle_request-Returns_example =
    handle_request-Returns anonymous (λ text. Entity.request (codes "Publish") publish_request)
      parser_ok text_frame (codes "{}") idle
