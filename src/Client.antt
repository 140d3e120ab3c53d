-- ===== src/Client.antt =====
-- stream.go, `EventStream`: the client's side of a stream.
pub mod EventStream
pub mod Drained
