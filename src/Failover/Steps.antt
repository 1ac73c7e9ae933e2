-- ===== src/Failover/Steps.antt =====
-- internal/failover/failover.go: the commands, the single steps, and the loop that runs them.
use syncctl.Base.{Bool, ◌||◌, List, [], ◌∷◌, ◌++◌, Text, codes, is_empty, if◌then◌else◌}
use syncctl.Base.Result.{Result, ok, err}
use syncctl.Config.Types.{SiteConfig}
use syncctl.Dbkey.{CheckError, primary_key, secondary_key, key_mismatch, check_keys}
use syncctl.Effects.{World, ◌>>◌, go_on, return, fail, wrap, combined_output}
use syncctl.Failover.{
  Controller, State, FailoverError, keys_differ, host_refused, ssh_failed, read_only_failed,
  step_failed, Act, lift,
}
use syncctl.Readonly.{enable, disable}
use syncctl.Shell.{quote}
use syncctl.Ssh.{HostError, check_host}

pub record Step : Type 0 where
  pub name : Text
  pub act : Act (Unit {0})

-- The loop over the steps; a dry run only prints their names.
unfoldable pub run_steps : Bool → List Step → Act (Unit {0})
run_steps dry_run [] s = (ok tt, s)
run_steps dry_run (step ∷ steps) s =
    let dry = run_steps dry_run steps s in
    let wet = go_on (wrap (step_failed step.name) step.act s) (λ _. run_steps dry_run steps) in
    if dry_run then dry else wet

-- `remotePGData`
abbrev pub remote_pg_data : Text
remote_pg_data = codes "/var/opt/gitlab/postgresql/data"

pub stop_command : Text
stop_command = codes "sudo gitlab-ctl stop"

pub start_command : Text
start_command = codes "sudo gitlab-ctl start"

pub promote_command : Text
promote_command =
    codes "sudo -u gitlab-psql /opt/gitlab/embedded/bin/pg_ctl promote -D " ++ quote remote_pg_data

module _ (w : World) (c : Controller) where
  unfoldable pub ssh_checked : Result HostError (Unit {0}) → Text → Text → Act (Unit {0})
  unfolding combined_output
  ssh_checked (err e) host cmd = fail (host_refused e)
  ssh_checked (ok _) host cmd = do
    lift (wrap (ssh_failed host) (combined_output w c.ssh_cfg host cmd))
    return tt

  -- `sshSecondary`
  unfoldable pub ssh_secondary : Text → Text → Act (Unit {0})
  unfolding ssh_checked
  ssh_secondary host cmd = ssh_checked (check_host host) host cmd

  -- Only a definite mismatch stops the sequence.
  unfoldable pub judge :
      Result CheckError (Unit {0}) × State → Result FailoverError (Unit {0}) × State
  judge (ok _, s) = (ok tt, s)
  judge (err (primary_key e), s) = (ok tt, s)
  judge (err (secondary_key e), s) = (ok tt, s)
  judge (err key_mismatch, s) = (err (keys_differ key_mismatch), s)

  -- `verifyDBKeyParity`
  unfoldable pub verify_db_key_parity : SiteConfig → Act (Unit {0})
  unfolding judge check_keys
  verify_db_key_parity secondary s =
      if is_empty c.cfg.primary.ssh_host || is_empty secondary.ssh_host
      then (ok tt, s)
      else judge (
          lift
            (check_keys w (combined_output w c.ssh_cfg) c.cfg.primary.ssh_host secondary.ssh_host)
            s)

  unfoldable pub disable_read_only : Text → Act (Unit {0})
  unfolding disable
  disable_read_only host =
      lift (wrap read_only_failed (disable (combined_output w c.ssh_cfg) host c.dry_run))

  unfoldable pub enable_read_only : Text → Act (Unit {0})
  unfolding enable
  enable_read_only host =
      lift (wrap read_only_failed (enable (combined_output w c.ssh_cfg) host c.dry_run))
