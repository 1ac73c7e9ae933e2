-- ===== src/Pgsetup/Setup.antt =====
-- pgsetup/pgsetup.go: `Run`. The listing of the data directory, the outcome of `pg_basebackup` and the file
-- that it leaves are given; what is run and written is an event.
use syncctl.Base.{
  Bool, true, false, not, Option, none, some, List, [], ◌∷◌, ◌++◌, Text, codes, is_empty,
  if◌then◌else◌,
}
use syncctl.Base.Result.{Result, ok, err}
use syncctl.Pgsetup.{
  SetupOptions, build_basebackup_args, Listing, SetupError, no_data_dir, no_primary_dsn,
  backup_failed, conf_unreadable, write_failed, check_data_dir,
}
use syncctl.Pgsetup.AppName.{append_app_name}

pub data SetupEvent : Type 0 where
  -- the arguments of `pg_basebackup`, and what is added to its environment
  basebackup : List Text → List Text → SetupEvent
  -- the new content of postgresql.auto.conf
  write_conf : Text → SetupEvent

pub record SetupWorld : Type 0 where
  pub listing : Listing
  pub backup_succeeds : Bool
  -- the content of postgresql.auto.conf behind the backup, if it can be read
  pub conf : Option Text
  pub write_succeeds : Bool

abbrev pub SetupRun : Type 0
SetupRun = Result SetupError (Unit {0}) × List SetupEvent

unfoldable pub password_env : Text → List Text
password_env password = if is_empty password then [] else (codes "PGPASSWORD=" ++ password) ∷ []

abbrev pub outcome : Bool → SetupError → Result SetupError (Unit {0})
outcome true e = ok tt
outcome false e = err e

module _ (w : SetupWorld) (o : SetupOptions) where
  abbrev pub write_named : Option Text → List SetupEvent → SetupRun
  write_named none events = (err conf_unreadable, events)
  write_named (some content) events = (
    outcome w.write_succeeds write_failed,
    events ++ write_conf (append_app_name o.slot_name content) ∷ [],
  )

  -- `appendConnInfoAppname`; without a slot the file is left alone.
  unfoldable pub append_conn_info : List SetupEvent → SetupRun
  unfolding append_app_name
  append_conn_info events =
      if is_empty o.slot_name then (ok tt, events) else write_named w.conf events

  abbrev pub back_up : SetupRun
  back_up =
      let ran = basebackup (build_basebackup_args o) (password_env o.password) ∷ [] in
      if not w.backup_succeeds then (err backup_failed, ran) else append_conn_info ran

  unfoldable pub set_up : Result SetupError (Unit {0}) → SetupRun
  unfolding append_conn_info build_basebackup_args password_env
  set_up (err e) = (err e, [])
  set_up (ok _) = if o.dry_run then (ok tt, []) else back_up

  -- `Run`
  unfoldable pub run_setup : SetupRun
  unfolding set_up check_data_dir
  run_setup =
      if is_empty o.data_dir
      then (err no_data_dir, [])
      else if is_empty o.primary_dsn
      then (err no_primary_dsn, [])
      else set_up (check_data_dir w.listing)
