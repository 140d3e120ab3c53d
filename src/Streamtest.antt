-- ===== src/Streamtest.antt =====
-- streamtest/streamtest.go: the checker of event sequences, and the sink that records them.
pub mod Validator
pub mod Step
pub mod Check
pub mod Checked
pub mod Terminal
pub mod Sink
pub mod Accepted
