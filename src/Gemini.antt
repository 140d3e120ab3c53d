-- ===== src/Gemini.antt =====
-- providers/gemini/response.go: the adapter that streams from the Gemini API.
pub mod Chunk
pub mod Locate
pub mod Decoder
pub mod Stream
pub mod Kept
pub mod Outcome
