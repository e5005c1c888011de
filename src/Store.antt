-- ===== src/Store.antt =====
-- internal/store: the tables of the database beside the sessions.
pub mod Workloads
pub mod Secrets
pub mod Flakes
