-- ===== src/Handler.antt =====
-- handler.go: the streaming side of the HTTP handler, and its use of the response store.
pub mod SseSink
pub mod Frames
pub mod Running
pub mod Finished
pub mod Mirrored
pub mod Received
pub mod Failed
pub mod History
