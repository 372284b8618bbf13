-- ===== src/WebSocket.antt =====
-- The WebSocket side of a connection: src/websocket/ and include/websocket/.
pub mod Types
pub mod FrameParser
pub mod MessageParser
pub mod Response
pub mod Frames
pub mod Simulation
pub mod Cuts
pub mod FrameRoundTrip
pub mod ChunkRoundTrip
pub mod MessageRoundTrip
