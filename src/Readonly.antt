-- ===== src/Readonly.antt =====
-- internal/readonly/readonly.go: the write suppression on a secondary.
use syncctl.Base.{Bool, List, [], ◌∷◌, Text, codes, if◌then◌else◌}
use syncctl.Base.Result.{Result, ok, err}
use syncctl.Effects.{Action, Log, SshError, Runner, ◌>>◌, return, fail, wrap}
use syncctl.Ssh.{HostError, check_host}

pub data ReadonlyError : Type 0 where
  refused_host : HostError → ReadonlyError
  ssh_error : Text → SshError → ReadonlyError

pub enable_commands : List Text
enable_commands =
    codes "sudo gitlab-ctl deploy-registry-readonly start"
    ∷ codes "sudo gitlab-ctl sidekiq pause"
    ∷ codes
        "sudo gitlab-rails runner 'ApplicationSetting.current.update!(repository_storages: [])' 2>/dev/null || true"
    ∷ []

pub disable_commands : List Text
disable_commands =
    codes "sudo gitlab-ctl deploy-registry-readonly stop"
    ∷ codes "sudo gitlab-ctl sidekiq resume"
    ∷ codes
        "sudo gitlab-rails runner 'ApplicationSetting.current.update!(repository_storages: nil)' 2>/dev/null || true"
    ∷ []

module _ (runner : Runner) (host : Text) (dry_run : Bool) where
  unfoldable pub run_checked :
      Result HostError (Unit {0}) → Text → Action Log ReadonlyError (Unit {0})
  run_checked (err e) cmd = fail (refused_host e)
  run_checked (ok _) cmd =
      if dry_run then return tt else (do wrap (ssh_error host) (runner host cmd); return tt)

  -- `runSSH`; a dry run prints the command instead.
  unfoldable pub run_ssh : Text → Action Log ReadonlyError (Unit {0})
  unfolding run_checked
  run_ssh cmd = run_checked (check_host host) cmd

  unfoldable pub run_all : List Text → Action Log ReadonlyError (Unit {0})
  unfolding run_ssh
  run_all [] = return tt
  run_all (cmd ∷ cmds) = do run_ssh cmd; run_all cmds

  -- `EnableWithConfig` and `DisableWithConfig`
  unfoldable pub enable : Action Log ReadonlyError (Unit {0})
  unfolding run_all
  enable = run_all enable_commands

  unfoldable pub disable : Action Log ReadonlyError (Unit {0})
  unfolding run_all
  disable = run_all disable_commands
