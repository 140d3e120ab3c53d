-- ===== src/WebSocket.antt =====
-- websocket/websocket.go: a session on the server, which takes one message after the other, and the
-- turns of a client.
pub mod Sink
pub mod Written
pub mod Turn
pub mod Serve
pub mod Answered
pub mod Answers
pub mod Remembered
pub mod Conn
pub mod InStep
pub mod Stale
