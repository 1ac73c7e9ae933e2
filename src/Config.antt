-- ===== src/Config.antt =====
-- internal/config/config.go.
pub mod Types
pub mod Dsn
pub mod Validate
pub mod Secrets
pub mod Paths
