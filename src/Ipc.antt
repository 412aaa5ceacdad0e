-- ===== src/Ipc.antt =====
-- internal/ipc: event cursors, the negotiation of a version, and the codec of frames.
pub mod Version
pub mod Frame
pub mod Stream
pub mod Streaming
pub mod RoundTrip
pub mod Returning
mod Tests
