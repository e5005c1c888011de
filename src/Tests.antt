-- ===== src/Tests.antt =====
-- Concrete runs of the models, and the theorems applied to concrete data.
mod Apply
mod Auth
mod Board
mod Dialogs
mod Forms
mod Handlers
mod Nix
mod Page
mod Ports
mod Secrets
mod Server
