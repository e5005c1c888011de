-- ===== src/Auth.antt =====
-- Who may use nixbox: internal/auth, internal/store/sessions.go, and the login side of
-- internal/server.
pub mod Limiter
pub mod Gate
pub mod Sessions
pub mod Redirect
pub mod Login
