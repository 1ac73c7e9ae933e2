-- ===== src/Tests/Doctor.antt =====
-- The report of doctor.go on two sites that are ready.
use syncctl.Base.{true, [], ◌≡◌, refl, codes}
use syncctl.Base.Result.{ok}
use syncctl.Base.Strings.{contains_any, contains_byte, count_byte, cut, cut_last, has_prefix}
use syncctl.Ssh.{check_host, host_char}
use syncctl.Effects.{Runner}
use syncctl.Doctor.Database.{
  Database, text_row, bool_row, version, wal_level, max_wal_senders, in_recovery, role_replication,
}
use syncctl.Doctor.Report.{run_doctor}
use syncctl.Doctor.Ready.{SitesReady, run_doctor-Ready}
use syncctl.Tests.Failover.{two_sites, outage}

-- Every host prints the same key.
abbrev one_key : Runner
one_key host cmd l = (ok (codes "db_key_base: abc"), l)

abbrev standby : Database
standby target version = text_row (codes "PostgreSQL 16.2 (Debian)")
standby target wal_level = text_row (codes "replica")
standby target max_wal_senders = text_row (codes "10")
standby target in_recovery = bool_row true
standby target (role_replication user) = bool_row true

no_failure : (run_doctor outage one_key standby (two_sites true) []).0.failed ≡ 0
unfolding run_doctor check_host host_char contains_any contains_byte count_byte cut cut_last
    has_prefix
no_failure = refl

no_warning : (run_doctor outage one_key standby (two_sites true) []).0.warned ≡ 0
unfolding run_doctor check_host host_char contains_any contains_byte count_byte cut cut_last
    has_prefix
no_warning = refl

run_doctor-Ready_example : SitesReady outage one_key standby (two_sites true)
run_doctor-Ready_example =
    run_doctor-Ready outage one_key standby (two_sites true) [] no_failure no_warning
