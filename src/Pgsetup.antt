-- ===== src/Pgsetup.antt =====
-- internal/pgsetup/pgsetup.go: the bootstrap of a standby by `pg_basebackup`.
pub mod Redact
pub mod AppName
pub mod Setup
pub mod Empty
use syncctl.Base.{
  ℕ, Bool, true, false, Option, none, some, List, [], ◌∷◌, ◌++◌, Text, codes, is_empty,
  if◌then◌else◌,
}
use syncctl.Base.Result.{Result, ok, err}

-- `Options`
pub record SetupOptions : Type 0 where
  pub primary_dsn : Text
  pub password : Text
  pub data_dir : Text
  pub slot_name : Text
  pub dry_run : Bool

-- `buildBasebackupArgs`
unfoldable pub build_basebackup_args : SetupOptions → List Text
build_basebackup_args o =
    (codes "-D"
      ∷ o.data_dir
      ∷ codes "-d"
      ∷ o.primary_dsn
      ∷ codes "-X"
      ∷ codes "stream"
      ∷ codes "-c"
      ∷ codes "fast"
      ∷ codes "-R"
      ∷ codes "-P"
      ∷ [])
    ++ (if is_empty o.slot_name then [] else codes "-S" ∷ o.slot_name ∷ codes "--create-slot" ∷ [])

-- What `os.ReadDir` gives for the data directory.
pub data Listing : Type 0 where
  entries : List Text → Listing
  absent unreadable : Listing

pub data SetupError : Type 0 where
  no_data_dir no_primary_dsn not_empty not_inspected : SetupError
  backup_failed conf_unreadable write_failed : SetupError

-- `checkDataDir`
unfoldable pub check_data_dir : Listing → Result SetupError (Unit {0})
check_data_dir (entries []) = ok tt
check_data_dir (entries (e ∷ es)) = err not_empty
check_data_dir absent = ok tt
check_data_dir unreadable = err not_inspected
