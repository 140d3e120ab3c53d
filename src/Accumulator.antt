-- ===== src/Accumulator.antt =====
-- stream.go, `Accumulator`: the fold of a stream of events into a response.
pub mod State
pub mod Add
pub mod Panics
pub mod Placement
