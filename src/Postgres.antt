-- ===== src/Postgres.antt =====
-- internal/reconciler/postgres/reconciler.go: the pools of the sites and the lag of the standbys.
pub mod Pools
pub mod Balanced
pub mod Lag
