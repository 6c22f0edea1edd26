-- ===== src/Config.antt =====
-- internal/config/config.go: the settings that the binaries read from the environment.
pub mod Text
pub mod Load
pub mod Lists
pub mod Labels
pub mod Usable
