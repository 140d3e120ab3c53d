-- ===== src/Emitter/Lifecycle.antt =====
-- emitter.go against the checker of streamtest/streamtest.go: the streaming lifecycle.
pub mod Sends
pub mod Done
pub mod Message
pub mod MessageParts
pub mod MessageCalls
pub mod MessageClose
pub mod CallCalls
pub mod Reasoning
pub mod ReasoningCalls
pub mod ReasoningClose
pub mod Items
pub mod Invariant
pub mod Start
pub mod Open
pub mod End
pub mod Refused
pub mod Calls
pub mod Run
pub mod Amend
