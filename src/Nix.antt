-- ===== src/Nix.antt =====
-- internal/nix: the state flake's names, ports, texts and the rebuild pipeline.
pub mod Names
pub mod Ports
pub mod Flake
pub mod Quote
pub mod Rebuild
