-- ===== src/Sse.antt =====
-- internal/sse/sse.go and sse.go: the frames of server-sent events.
pub mod Frame
pub mod Search
pub mod RoundTrip
