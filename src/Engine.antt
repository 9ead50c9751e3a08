-- ===== src/Engine.antt =====
-- src/engine.rs: the engine's state, evaluation and publication of new states.
pub mod Snapshot
pub mod Evaluate
pub mod Publish
pub mod Session
pub mod Frozen
