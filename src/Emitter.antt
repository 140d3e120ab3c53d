-- ===== src/Emitter.antt =====
-- emitter.go: the emitter of an adapter's stream, and the writers of its items.
pub mod Parts
pub mod Writer
pub mod State
pub mod Calls
pub mod Lifecycle
pub mod Frame
pub mod First
pub mod Conformance
pub mod Ended
pub mod Growth
pub mod Folded
pub mod Running
