-- ===== src/Doctor/Report.antt =====
-- doctor/doctor.go, `checks` and `RunWith`: all checks in their order, and their counts.
use syncctl.Base.{
  ℕ, suc, not, ◌&&◌, Option, none, some, List, [], ◌∷◌, ◌++◌, Text, codes, is_empty, text_eq,
  if◌then◌else◌,
}
use syncctl.Config.Types.{S3Config, SiteConfig, Config, ObjectStoreConfig}
use syncctl.Effects.{Log, World, Runner}
use syncctl.Doctor.{Status, pass, fail, warn, Check}
use syncctl.Doctor.Database.{
  Database, pg_control_check, pg_replication_role_check, pg_wal_level_check, pg_wal_senders_check,
  pg_in_recovery_check,
}
use syncctl.Doctor.Hosts.{
  ssh_check, db_key_present_check, db_key_parity_check, rsync_check, git_check, path_exists_check,
  s3_bucket_check,
}

-- A part of the run: the checks that it adds, and the requests behind it.
abbrev pub Part : Type 0
Part = Log → List Check × Log

abbrev pub one : (Log → Check × Log) → Part
one m l = let (c, l') = m l in (c ∷ [], l')

abbrev pub pure : Check → Part
pure c l = (c ∷ [], l)

abbrev pub nothing : Part
nothing l = ([], l)

infixr 5 ◌>then>◌
unfoldable pub ◌>then>◌ : Part → Part → Part
◌>then>◌ m k l = let (a, l1) = m l in let (b, l2) = k l1 in (a ++ b, l2)

abbrev pub primary_label : Text
primary_label = codes "primary"

module _ (w : World) (runner : Runner) (db : Database) where
  unfoldable pub primary_part : SiteConfig → Part
  primary_part p =
      one (ssh_check w runner primary_label p.ssh_host)
      >then> pure (pg_control_check db primary_label p.postgres)
      >then> pure (pg_replication_role_check db primary_label p.postgres)
      >then> pure (pg_wal_level_check db primary_label p.postgres)
      >then> pure (pg_wal_senders_check db primary_label p.postgres)
      >then> one (db_key_present_check w runner primary_label p.ssh_host)
      >then> one (rsync_check w runner primary_label p.ssh_host)
      >then> one (git_check w runner primary_label p.ssh_host)

  abbrev pub parity_part : SiteConfig → SiteConfig → Part
  parity_part p s =
      if not (is_empty p.ssh_host) && not (is_empty s.ssh_host)
      then one (db_key_parity_check w runner p.ssh_host s.ssh_host s.name)
      else nothing

  abbrev pub path_part : Text → SiteConfig → Part
  path_part label s =
      if not (is_empty s.git.repos_path)
      then one (path_exists_check w runner label s.ssh_host s.git.repos_path (codes "repos_path"))
      else nothing

  unfoldable pub secondary_part : SiteConfig → SiteConfig → Part
  secondary_part p s =
      let label = codes "secondary:" ++ s.name in
      one (ssh_check w runner label s.ssh_host)
      >then> pure (pg_control_check db label s.postgres)
      >then> pure (pg_in_recovery_check db label s.postgres)
      >then> one (db_key_present_check w runner label s.ssh_host)
      >then> parity_part p s
      >then> one (rsync_check w runner label s.ssh_host)
      >then> one (git_check w runner label s.ssh_host)
      >then> path_part label s

  unfoldable pub secondary_parts : SiteConfig → List SiteConfig → Part
  unfolding secondary_part
  secondary_parts p [] = nothing
  secondary_parts p (s ∷ ss) = secondary_part p s >then> secondary_parts p ss

  abbrev pub s3_part : Option S3Config → Part
  s3_part none = nothing
  s3_part (some s3) = pure (s3_bucket_check primary_label s3)

  unfoldable pub storage_part : ObjectStoreConfig → Part
  unfolding text_eq
  storage_part store = if text_eq store.backend (codes "s3") then s3_part store.s3 else nothing

  -- `checks`
  unfoldable pub all_checks : Config → Part
  unfolding primary_part secondary_parts storage_part
  all_checks cfg =
      primary_part cfg.primary
      >then> secondary_parts cfg.primary cfg.secondaries
      >then> storage_part cfg.primary.object_store

-- `Result`
pub record Report : Type 0 where
  pub checks : List Check
  pub passed : ℕ
  pub failed : ℕ
  pub warned : ℕ

abbrev pub count_status : Status → Report → Report
count_status pass r = record r { passed = suc r.passed }
count_status fail r = record r { failed = suc r.failed }
count_status warn r = record r { warned = suc r.warned }

-- The loop over the checks.
unfoldable pub tally : List Check → Report → Report
tally [] r = r
tally (c ∷ cs) r = tally cs (count_status c.status r)

-- `RunWith`
unfoldable pub run_doctor : World → Runner → Database → Config → Log → Report × Log
unfolding all_checks tally ◌>then>◌ ssh_check db_key_present_check db_key_parity_check rsync_check
    git_check path_exists_check pg_control_check pg_replication_role_check pg_wal_level_check
    pg_wal_senders_check pg_in_recovery_check s3_bucket_check
run_doctor w runner db cfg l =
    let (checks, l') = all_checks w runner db cfg l in
    (tally checks (record { checks = checks; passed = 0; failed = 0; warned = 0 }), l')
