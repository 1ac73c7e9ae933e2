-- ===== src/Tests.antt =====
-- Runs at concrete inputs, and the theorems at inputs that meet their hypotheses.
mod ApiValidator
mod Shell
mod Sla
mod Ssh
mod Failover
mod Config
mod Webhook
mod Consistency
mod Doctor
mod Gitfetch
mod Registry
mod ObjectStorage
mod Postgres
mod Rsync
mod Pgsetup
