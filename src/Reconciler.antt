-- ===== src/Reconciler.antt =====
-- internal/reconciler: the retries and the sweeps that the components share.
pub mod Retry
pub mod Sweep
