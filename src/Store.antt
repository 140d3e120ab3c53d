-- ===== src/Store.antt =====
-- store.go: the memory of completed responses, and the continuation of a conversation from it.
pub mod Memory
pub mod Entries
pub mod WellFormed
pub mod Lookup
pub mod Eviction
pub mod Continuation
pub mod Outputs
pub mod Resolve
