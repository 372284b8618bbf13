-- ===== src/Tests.antt =====
-- Tests of the models and the theorems at concrete inputs, a module for each part.
mod TopicsTests
mod AccessTests
mod ConnectionTests
mod EventLoopTests
mod WebSocketTests
mod RedisTests
mod RpcTests
mod SubscriptionsTests
mod HttpTests
mod ServerTests
