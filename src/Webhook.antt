-- ===== src/Webhook.antt =====
-- internal/webhook/webhook.go: the receiver of GitLab's webhooks.
pub mod Debounce
pub mod Owner
pub mod Entries
pub mod Drain
pub mod Handler
