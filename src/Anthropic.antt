-- ===== src/Anthropic.antt =====
-- providers/anthropic/response.go: the adapter that streams from the Messages API.
pub mod Shapes
pub mod Counts
pub mod Decoder
pub mod Blocks
pub mod Stream
pub mod Kept
pub mod Outcome
