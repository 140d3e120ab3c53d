-- ===== src/Adapter.antt =====
-- What the adapters that stream from a provider (chatcompletions, providers/anthropic and
-- providers/gemini) have in common: a decoder that folds the provider's events into calls of an
-- emitter, and stops at the first error.
pub mod Shapes
pub mod Steps
pub mod Keeps
pub mod Outcome
