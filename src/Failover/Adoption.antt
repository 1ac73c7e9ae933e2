-- ===== src/Failover/Adoption.antt =====
-- internal/failover/failover.go: `AdoptAsSecondary`, which makes the old primary a secondary.
pub mod Order
pub mod Occupied
use syncctl.Base.{
  Bool, true, false, not, ◌&&◌, Option, none, some, List, [], ◌∷◌, ◌++◌, Text, codes, is_empty,
  if◌then◌else◌,
}
use syncctl.Base.Numbers.{itoa}
use syncctl.Base.Result.{Result, ok, err}
use syncctl.Base.Strings.{trim_space}
use syncctl.Config.Types.{PostgresConfig, SiteConfig}
use syncctl.Effects.{
  World, Log, Action, SshError, ◌>>=◌, ◌>>◌, go_on, return, wrap, combined_output,
  combined_output_stdin,
}
use syncctl.Failover.Steps.{
  Step, run_steps, remote_pg_data, stop_command, start_command, ssh_secondary, enable_read_only,
}
use syncctl.Failover.Targets.{resolve_new_primary}
use syncctl.Failover.{
  Controller, State, FailoverError, failover_disabled, ssh_failed, passfile_failed,
  pg_data_not_empty, Act, lift,
}
use syncctl.Shell.{quote}

-- `remotePassfile`
abbrev remote_passfile : Text
remote_passfile = codes "/var/opt/gitlab/postgresql/.syncctl-pgpass"

pub wipe_command : Text
wipe_command =
    codes "sudo rm -rf -- "
    ++ quote remote_pg_data
    ++ codes " && sudo -u gitlab-psql mkdir -p "
    ++ quote remote_pg_data

pub list_command : Text
list_command = codes "sudo ls -A " ++ quote remote_pg_data ++ codes " 2>/dev/null | head -1"

pub stage_command : Text
stage_command =
    codes "umask 077 && sudo -u gitlab-psql tee " ++ quote remote_passfile ++ codes " >/dev/null"

pub remove_command : Text
remove_command = codes "sudo rm -f -- " ++ quote remote_passfile

pub backup_command : PostgresConfig → Text
backup_command pg =
    codes "sudo -u gitlab-psql PGPASSFILE="
    ++ quote remote_passfile
    ++ codes " /opt/gitlab/embedded/bin/pg_basebackup -h "
    ++ quote pg.host
    ++ codes " -p "
    ++ itoa pg.port
    ++ codes " -U "
    ++ quote pg.replication_user
    ++ codes " -D "
    ++ quote remote_pg_data
    ++ codes " -X stream -c fast -R -P"

-- The line of the libpq passfile; `*` matches any database.
unfoldable pub passfile_line : PostgresConfig → Text
passfile_line pg =
    pg.host
    ++ codes ":"
    ++ itoa pg.port
    ++ codes ":*:"
    ++ pg.replication_user
    ++ codes ":"
    ++ pg.replication_password
    ++ codes "\n"

module _ (w : World) (c : Controller) where
  -- What `ls -A` printed decides.
  unfoldable pub refuse_content : Text → Text → Act (Unit {0})
  refuse_content host out s =
      if not (is_empty (trim_space out)) then (err (pg_data_not_empty host), s) else (ok tt, s)

  -- `checkRemotePGDataEmpty`
  unfoldable pub check_pg_data : Text → Act (Unit {0})
  unfolding ssh_secondary combined_output refuse_content
  check_pg_data host s =
      if c.wipe_pg_data
      then ssh_secondary w c host wipe_command s
      else go_on (lift (wrap (ssh_failed host) (combined_output w c.ssh_cfg host list_command)) s)
          (refuse_content host)

  -- `writeRemotePassfile`
  unfoldable pub write_passfile : Text → PostgresConfig → Act (Unit {0})
  unfolding combined_output_stdin passfile_line
  write_passfile host pg s =
      if is_empty pg.replication_password
      then (ok tt, s)
      else go_on
          (lift
            (wrap (passfile_failed host)
              (combined_output_stdin w c.ssh_cfg host stage_command (passfile_line pg)))
            s)
          (λ _ t. (ok tt, t))

  -- `removeRemotePassfile`, whose error is only logged.
  unfoldable pub remove_passfile : Text → State → State
  unfolding combined_output
  remove_passfile host s =
      if c.dry_run
      then s
      else record s { log = (combined_output w c.ssh_cfg host remove_command s.log).1 }

  unfoldable pub adoption_steps : Text → SiteConfig → List Step
  adoption_steps host new_primary =
      record {
        name = codes "stop gitlab on old primary";
        act = ssh_secondary w c host stop_command;
      }
      ∷ record { name = codes "check old primary PGDATA is clear"; act = check_pg_data host }
      ∷ record {
        name = codes "stage replication credentials on old primary";
        act = write_passfile host new_primary.postgres;
      }
      ∷ record {
        name = codes "pg_basebackup from new primary";
        act = ssh_secondary w c host (backup_command new_primary.postgres);
      }
      ∷ record {
        name = codes "enable read-only mode on old primary";
        act = enable_read_only w c host;
      }
      ∷ record {
        name = codes "start gitlab on old primary as secondary";
        act = ssh_secondary w c host start_command;
      }
      ∷ []

  -- The deferred removal of the passfile runs behind the steps, however they end.
  unfoldable pub then_remove :
      Text → Result FailoverError (Unit {0}) × State → Result FailoverError (Unit {0}) × State
  unfolding remove_passfile
  then_remove host (r, s) = (r, remove_passfile host s)

  unfoldable pub adopt_found : Text → Result FailoverError SiteConfig → Act (Unit {0})
  unfolding then_remove run_steps adoption_steps
  adopt_found host (err e) s = (err e, s)
  adopt_found host (ok new_primary) s =
      then_remove host (run_steps c.dry_run (adoption_steps host new_primary) s)

  -- `AdoptAsSecondary`
  unfoldable pub adopt_as_secondary : Text → Text → Act (Unit {0})
  unfolding adopt_found resolve_new_primary
  adopt_as_secondary host name s =
      if not c.dry_run && not c.cfg.sync.failover_enabled
      then (err failover_disabled, s)
      else adopt_found host (resolve_new_primary c.cfg name) s
