-- ===== src/Doctor/Ready.antt =====
-- doctor/doctor.go: what a report with neither a failure nor a warning says of both sites.
use syncctl.Base.{
  true, false, some, List, [], ◌∷◌, ◌++◌, All, ◌≡◌, ◌≢◌, refl, sym, ap, ◌∙◌, Text, codes, is_empty,
  Bool-cases, inl, inr,
}
use syncctl.Base.Result.{ok}
use syncctl.Shell.{quote}
use syncctl.Doctor.HostReady.{
  Answers, HostReady, StorageReady, ssh_check-Answers, db_key_present_check-Answers,
  rsync_check-Answers, git_check-Answers, path_exists_check-Answers, storage_part-Ready,
}
use syncctl.Config.Types.{S3Config, PostgresConfig, SiteConfig, Config}
use syncctl.Config.Dsn.{dsn}
use syncctl.Effects.{Log, World, Runner}
use syncctl.Dbkey.{check_keys}
use syncctl.Doctor.{pass}
use syncctl.Doctor.Database.{
  Database, text_row, bool_row, version, wal_level, max_wal_senders, in_recovery, role_replication,
  enough_wal, pg_control_check, pg_replication_role_check, pg_wal_level_check, pg_wal_senders_check,
  pg_in_recovery_check,
}
use syncctl.Doctor.Hosts.{
  ssh_check, db_key_parity_check, db_key_present_check, rsync_check, git_check, path_exists_check,
}
use syncctl.Doctor.Report.{
  one, primary_label, primary_part, path_part, parity_part, secondary_part, secondary_parts,
  all_checks, Report, tally, run_doctor,
}
use syncctl.Doctor.Passing.{
  tally-Passed, AllPass, then-AllPass, one-Passed, pure-Passed, control_of-pass, role_of-pass,
  wal_level_of-pass, wal_senders_of-pass, in_recovery_of-pass, set-ne, parity_of-pass,
}

-- The database answers, lets the replication user stream, and writes a log for standbys.
pub record PrimaryReady (db : Database) (p : PostgresConfig) : Type 0 where
  pub release : Text
  pub answers : db (dsn p) version ≡ text_row release
  pub streams : db (dsn p) (role_replication p.replication_user) ≡ bool_row true
  pub level : Text
  pub shown : db (dsn p) wal_level ≡ text_row level
  pub enough : enough_wal level ≡ true
  pub senders : Text
  pub counted : db (dsn p) max_wal_senders ≡ text_row senders
  pub more_than_none : senders ≢ codes "0"

-- The host of a secondary is ready, its database answers and is a standby, its key is that of the
-- primary, and the path of its repositories is there, if it is given.
pub record SecondaryReady (w : World) (runner : Runner) (db : Database) (p s : SiteConfig)
    : Type 0 where
  pub host : HostReady runner s.ssh_host
  pub release : Text
  pub answers : db (dsn s.postgres) version ≡ text_row release
  pub standby : db (dsn s.postgres) in_recovery ≡ bool_row true
  pub asked : Log
  pub same_key : (check_keys w runner p.ssh_host s.ssh_host asked).0 ≡ ok tt
  pub repos :
      s.git.repos_path ≢ [] → Answers runner s.ssh_host (codes "test -d " ++ quote s.git.repos_path)

full-false : (t : Text) → t ≢ [] → is_empty t ≡ false
full-false [] h = absurd (h refl)
full-false (c ∷ t) h = refl

pg_control_check-pass :
    (db : Database) (label : Text) (p : PostgresConfig)
    → (pg_control_check db label p).status ≡ pass
    → (v : Text) × (db (dsn p) version ≡ text_row v)
unfolding pg_control_check
pg_control_check-pass db label p h = elim (Bool-cases (is_empty p.host)) [
  | inl missing ↦ let h' = rw missing at h in cc
  | inr given ↦ control_of-pass label (db (dsn p) version) (rw given at h)
]

primary-Ready :
    (db : Database) (label : Text) (p : PostgresConfig)
    → (pg_control_check db label p).status ≡ pass
    → (pg_replication_role_check db label p).status ≡ pass
    → (pg_wal_level_check db label p).status ≡ pass
    → (pg_wal_senders_check db label p).status ≡ pass
    → PrimaryReady db p
primary-Ready db label p control role level senders =
    let (release, answers) = pg_control_check-pass db label p control in
    let (shown_level, shown, enough) =
      wal_level_of-pass label (db (dsn p) wal_level) (unfold pg_wal_level_check in level) in
    let (count, counted, more) =
      wal_senders_of-pass label (db (dsn p) max_wal_senders)
        (unfold pg_wal_senders_check in senders) in
    record {
      release = release;
      answers = answers;
      streams =
          role_of-pass label p.replication_user (db (dsn p) (role_replication p.replication_user))
            (unfold pg_replication_role_check in role);
      level = shown_level;
      shown = shown;
      enough = enough;
      senders = count;
      counted = counted;
      more_than_none = more;
    }

module _ (w : World) (runner : Runner) (db : Database) where
  host-Ready :
      (label host : Text) (l1 l2 l3 l4 : Log)
      → (ssh_check w runner label host l1).0.status ≡ pass
      → (db_key_present_check w runner label host l2).0.status ≡ pass
      → (rsync_check w runner label host l3).0.status ≡ pass
      → (git_check w runner label host l4).0.status ≡ pass
      → (is_empty host ≡ false) × HostReady runner host
  host-Ready label host l1 l2 l3 l4 ssh key rsync git =
      let (given, answers) = ssh_check-Answers runner w label host l1 ssh in
      let (counted, there) = db_key_present_check-Answers runner w label host l2 key in
      (
        given,
        record {
          reached = set-ne host given;
          ssh = answers;
          key = counted;
          key_there = there;
          rsync = rsync_check-Answers runner w label host l3 rsync;
          git = git_check-Answers runner w label host l4 git;
        },
      )

  path_part-Answers :
      (label : Text) (s : SiteConfig) (l : Log)
      → AllPass (path_part w runner db label s) l
      → s.git.repos_path ≢ []
      → Answers runner s.ssh_host (codes "test -d " ++ quote s.git.repos_path)
  path_part-Answers label s l h full =
      let given : is_empty s.git.repos_path ≡ false = full-false s.git.repos_path full in
      let h' : AllPass
          (one (path_exists_check w runner label s.ssh_host s.git.repos_path (codes "repos_path")))
          l =
        rw given at h in
      path_exists_check-Answers runner w label s.ssh_host s.git.repos_path (codes "repos_path") l
        (one-Passed _ l h')

  primary_part-Ready :
      (p : SiteConfig) (l : Log)
      → AllPass (primary_part w runner db p) l
      → (is_empty p.ssh_host ≡ false) × HostReady runner p.ssh_host × PrimaryReady db p.postgres
  unfolding primary_part
  primary_part-Ready p l h =
      let (ssh, h1) = then-AllPass _ _ l h in
      let (control, h2) = then-AllPass _ _ _ h1 in
      let (role, h3) = then-AllPass _ _ _ h2 in
      let (level, h4) = then-AllPass _ _ _ h3 in
      let (senders, h5) = then-AllPass _ _ _ h4 in
      let (key, h6) = then-AllPass _ _ _ h5 in
      let (rsync, git) = then-AllPass _ _ _ h6 in
      let (given, host) =
        host-Ready primary_label p.ssh_host l _ _ _ (one-Passed _ l ssh) (one-Passed _ _ key)
          (one-Passed _ _ rsync) (one-Passed _ _ git) in
      (
        given,
        host,
        primary-Ready db primary_label p.postgres (pure-Passed _ _ control) (pure-Passed _ _ role)
            (pure-Passed _ _ level) (pure-Passed _ _ senders),
      )

  parity_part-pass :
      (p s : SiteConfig) (l : Log)
      → is_empty p.ssh_host ≡ false
      → is_empty s.ssh_host ≡ false
      → AllPass (parity_part w runner db p s) l
      → (check_keys w runner p.ssh_host s.ssh_host l).0 ≡ ok tt
  parity_part-pass p s l hp hs h =
      let h' : AllPass (one (db_key_parity_check w runner p.ssh_host s.ssh_host s.name)) l =
        rw (hp, hs) at h in
      parity_of-pass s.name (check_keys w runner p.ssh_host s.ssh_host l)
        (unfold db_key_parity_check in one-Passed _ l h')

  secondary_part-Ready :
      (p s : SiteConfig) (l : Log)
      → is_empty p.ssh_host ≡ false
      → AllPass (secondary_part w runner db p s) l
      → SecondaryReady w runner db p s
  unfolding secondary_part
  secondary_part-Ready p s l given h =
      let (ssh, h1) = then-AllPass _ _ l h in
      let (control, h2) = then-AllPass _ _ _ h1 in
      let (recovery, h3) = then-AllPass _ _ _ h2 in
      let (key, h4) = then-AllPass _ _ _ h3 in
      let (parity, h5) = then-AllPass _ _ _ h4 in
      let (rsync, h6) = then-AllPass _ _ _ h5 in
      let (git, path) = then-AllPass _ _ _ h6 in
      let label = codes "secondary:" ++ s.name in
      let (reached, host) =
        host-Ready label s.ssh_host l _ _ _ (one-Passed _ l ssh) (one-Passed _ _ key)
          (one-Passed _ _ rsync) (one-Passed _ _ git) in
      let (release, answers) =
        pg_control_check-pass db label s.postgres (pure-Passed _ _ control) in
      record {
        host = host;
        release = release;
        answers = answers;
        standby =
            in_recovery_of-pass label (db (dsn s.postgres) in_recovery)
              (unfold pg_in_recovery_check in pure-Passed _ _ recovery);
        asked = _;
        same_key = parity_part-pass p s _ given reached parity;
        repos = path_part-Answers label s _ path;
      }

  secondary_parts-Ready :
      (p : SiteConfig) (ss : List SiteConfig) (l : Log)
      → is_empty p.ssh_host ≡ false
      → AllPass (secondary_parts w runner db p ss) l
      → All (SecondaryReady w runner db p) ss
  unfolding secondary_parts
  secondary_parts-Ready p [] l given h = tt
  secondary_parts-Ready p (s ∷ ss) l given h =
      let (first, rest) = then-AllPass _ _ l h in
      (secondary_part-Ready p s l given first, secondary_parts-Ready p ss _ given rest)

  -- Both sites are ready, and the object storage of the primary, if it is S3.
  pub record SitesReady (cfg : Config) : Type 0 where
    pub host : HostReady runner cfg.primary.ssh_host
    pub primary : PrimaryReady db cfg.primary.postgres
    pub secondaries : All (SecondaryReady w runner db cfg.primary) cfg.secondaries
    pub storage :
        (s3 : S3Config)
        → cfg.primary.object_store.backend ≡ codes "s3"
        → cfg.primary.object_store.s3 ≡ some s3
        → StorageReady s3

  all_checks-Ready :
      (cfg : Config) (l : Log) → AllPass (all_checks w runner db cfg) l → SitesReady cfg
  unfolding all_checks
  all_checks-Ready cfg l h =
      let (first, h1) = then-AllPass _ _ l h in
      let (rest, storage) = then-AllPass _ _ _ h1 in
      let (given, host, ready) = primary_part-Ready cfg.primary l first in
      record {
        host = host;
        primary = ready;
        secondaries = secondary_parts-Ready cfg.primary cfg.secondaries _ given rest;
        storage = λ s3 kind e.
            storage_part-Ready w runner db cfg.primary.object_store _ s3 kind e storage;
      }

  run_doctor_lem :
      (cfg : Config) (l : Log)
      → (run_doctor w runner db cfg l).0
        ≡ tally (all_checks w runner db cfg l).0 (record {
          checks = (all_checks w runner db cfg l).0;
          passed = 0;
          failed = 0;
          warned = 0;
        })
  unfolding run_doctor
  run_doctor_lem cfg l = refl

  -- If a run counts neither a failure nor a warning, the host of every site answered over SSH, counted a
  -- key that is not zero, and has rsync and git. The database of the primary answers, has the replication
  -- user with its privilege, a log for standbys and senders; that of each secondary answers and is a
  -- standby, its key was found equal to the primary's, and the path of its repositories is there if it
  -- is given. If the storage of the primary is S3, its buckets and keys are given.
  pub run_doctor-Ready :
      (cfg : Config) (l : Log)
      → (run_doctor w runner db cfg l).0.failed ≡ 0
      → (run_doctor w runner db cfg l).0.warned ≡ 0
      → SitesReady cfg
  run_doctor-Ready cfg l f w' =
      let checks = (all_checks w runner db cfg l).0 in
      all_checks-Ready cfg l (
        unfold AllPass in
        tally-Passed checks (record { checks = checks; passed = 0; failed = 0; warned = 0 })
          (ap (λ (r : Report). r.failed) (sym (run_doctor_lem cfg l)) ∙ f)
          (ap (λ (r : Report). r.warned) (sym (run_doctor_lem cfg l)) ∙ w'))
