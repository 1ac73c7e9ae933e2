-- ===== src/Registry.antt =====
-- internal/reconciler/registry: the comparison of two container registries, and the tokens for them.
pub mod Runes
pub mod Challenge
pub mod Unquoting
pub mod Header
pub mod Auth
pub mod Token
pub mod Allowed
pub mod Compare
pub mod Sets
pub mod InSync
