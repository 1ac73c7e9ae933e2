-- ===== src/Gitfetch.antt =====
-- internal/reconciler/gitfetch/reconciler.go: fetching each repository from the primary.
pub mod Paths
pub mod Segments
pub mod Resolve
pub mod Contained
pub mod Layout
pub mod Fetch
pub mod Project
pub mod Trace
pub mod Sweep
