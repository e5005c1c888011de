-- ===== src/Server.antt =====
-- internal/server: the event streams, the secrets and the flake inputs.
pub mod Tail
pub mod Secrets
pub mod Flakes
pub mod Metrics
