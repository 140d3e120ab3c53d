-- ===== src/ChatCompletions.antt =====
-- chatcompletions/response.go: the adapter that streams from a server of chat completions.
pub mod Chunk
pub mod Usage
pub mod Decoder
pub mod Deltas
pub mod Failure
pub mod Stream
pub mod Kept
pub mod Outcome
pub mod Nameless
pub mod Reread
