-- ===== src/Lib.antt =====
-- Eventhub is a pub/sub message broker: clients connect by websocket or server-sent events,
-- subscribe to topics and filters, and publish messages, which a redis server relays and caches.
-- A token decides what a client may do. This library models the parts that carry that logic.
--
-- Parts, files and sources (paths from the repository's root):
--   Topics (src/TopicManager.cpp): `isValidTopic`, `isValidTopicFilter`, `isFilterMatched`, on lists
--     of bytes; Topics/Levels, Topics/Matching and Topics/Validity hold the proofs.
--   Subscriptions (src/Topic.cpp, src/TopicManager.cpp, src/Connection.cpp): the topic manager's map,
--     the subscriber lists and each connection's subscriptions. Shared pointers are addresses and
--     iterators node numbers of a store. Subscriptions/Maps, Consistency, Removal, WellFormed,
--     Subscribing and Unsubscribing hold the invariant of the three maps, Delivery is about whom a
--     publish goes through, Views about what the maps answer, and Spec is the abstract table that the
--     operations keep.
--     Subscriptions/Broadcast is what `Topic::publish` writes, with Broadcast/Isolation and
--     Broadcast/Messages. StringMap holds the maps from strings.
--   AccessController (src/AccessController.cpp): `authenticate`, the tests of a topic, and the choice
--     of a rate limit; AccessController/Grants and AccessController/RateLimits hold the proofs.
--   WebSocket: FrameParser is the state machine of src/websocket/ws_parser.cpp, MessageParser is
--     src/websocket/Parser.cpp and Response is src/websocket/Response.cpp. FrameParser/Feeding and
--     FrameParser/Loop are about the loop, with callbacks that take a payload in pieces as they take
--     it whole; Simulation carries what the loop does over to other callbacks, and Cuts to those of
--     websocket::Parser. Frames are the bytes of a text message. FrameRoundTrip, ChunkRoundTrip and
--     MessageRoundTrip lead from one frame to a whole message.
--   EventLoop (include/EventLoop.hpp): the timer and job queues of a worker; EventLoop/Wakeup.
--   Connection (src/Connection.cpp): the write buffer, flushing, shutting down and the dispatch of
--     reads; Connection/Sending.
--   Redis (src/Redis.cpp): keys, event cache and rate limits over Redis/Server, the interface to the
--     redis++ client; Redis/CacheMeta, Redis/SinceId and Redis/LiveEvents. KvStore is src/KVStore.cpp.
--   Rpc and Rpc/Handlers (src/RPCHandler.cpp): the JSON-RPC methods, which call on Topics,
--     AccessController, Subscriptions, Redis and KvStore; Rpc/Handlers/Unauthenticated. Rpc/Dispatch
--     is src/websocket/Handler.cpp, from a parsed frame to a method.
--   Http/Parser (src/http/Parser.cpp): the parser of requests, with Parser/Bounds, Parser/Chunks,
--     Parser/QueryString and Parser/Parameters. Http/Response (src/http/Response.cpp) is the text of a response, and
--     Http/Handler (src/http/Handler.cpp) the handler, from a parsed request to an answer, a
--     websocket or an event stream; it calls on AccessController, Connection, Metrics and Sse.
--     Http/Context is what the handlers work on, Http/Sending what writing leaves alone, and
--     Handler/Authentication, Handler/Settling and Handler/Upgrade hold the proofs.
--   Sse (src/sse/Handler.cpp, src/sse/Response.cpp): event streams; Sse/Authorization. Util is
--     `uriDecode` of src/Util.cpp, with Util/UriDecoding.
--   Config (src/Config.cpp, include/Config.hpp): options and their loading; Config/Lines reads a line,
--     Config/Settings is about what it reads, Config/Loading about `load`.
--   Worker (src/ConnectionWorker.cpp, src/Server.cpp): accepting, the list of connections, timers and
--     events; Worker/Balancing and Worker/Bookkeeping. Server (src/Server.cpp) passes the messages of
--     redis on to the workers' queues; Server/Relay. Metrics (src/Server.cpp, src/metrics/) are the
--     counters, their sums and texts; Metrics/Aggregation.
--   Prelude: numbers, lists, byte strings and decimal texts. Tests: the models at inputs.
--
-- Conventions. A byte string is a list of numbers below 256. A lock makes each operation one step.
-- An exception is none, or the first component of a pair where the state is changed before it.
-- Numbers of 64 bits wrap where the source's do. Code outside the repository is a parameter: the
-- token library, the redis server, the JSON libraries, picohttpparser, system calls and the clock.
--
-- Bounds. The loop of the frame parser runs on fuel, 2 * n + 2 for n bytes, since each round takes a
-- byte or leaves the payload state. `digits` runs on n + 1 for the number n. The loop over a query
-- string runs on its length, since each pass takes an equal sign; more fuel changes nothing. Other
-- loops are structural.
--
-- Numbers that the program converts. The option `max_cache_request_limit` is the number that it is
-- converted to, an `unsigned long long`. A delay of a timer is a natural number: a negative option,
-- and the overflow of its product with 1000, are not modelled. The headers of a response, which the
-- program keeps in an unordered map, are in the order of their names.
--
-- Not modelled: that the JSON library throws while it prints a reply with a text that is not UTF-8;
-- the creation of sockets and threads, reconnecting to redis, TLS, logging and start-up,
-- which are calls of the system and of libraries, and the copies of other projects' libraries in the
-- repository.
pub mod Prelude
pub mod Topics
pub mod Config
pub mod Util
pub mod StringMap
pub mod Metrics
pub mod Http
pub mod Sse
pub mod WebSocket
pub mod EventLoop
pub mod AccessController
pub mod Connection
pub mod Redis
pub mod Subscriptions
pub mod KvStore
pub mod Rpc
pub mod Worker
pub mod Server
pub mod Tests
