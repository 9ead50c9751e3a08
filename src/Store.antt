-- ===== src/Store.antt =====
-- src/policy_store.rs: namespace-partitioned policy stores.
pub mod Router
pub mod Layout
pub mod Assignment
