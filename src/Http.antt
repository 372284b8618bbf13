-- ===== src/Http.antt =====
-- The HTTP side of the server, src/http/: the parser of requests, the responses and the handler of a
-- request.
pub mod Parser
pub mod Response
pub mod Context
pub mod Handler
pub mod Sending
