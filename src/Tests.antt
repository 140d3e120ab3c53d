-- ===== src/Tests.antt =====
-- The theorems on concrete streams, stores and conversations.
pub mod Streams
pub mod Stores
pub mod Handlers
pub mod Frames
pub mod Clients
pub mod Errors
pub mod Adapters
pub mod Sockets
