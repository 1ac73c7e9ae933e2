-- ===== src/Failover.antt =====
-- internal/failover/failover.go: the controller, its settings and its state.
pub mod Health
pub mod Targets
pub mod Steps
pub mod Ran
pub mod Performs
pub mod Checks
pub mod Safety
pub mod Monitor
pub mod Keeps
pub mod Streak
pub mod Outcomes
pub mod Promotion
pub mod Adoption
pub mod Choice
pub mod Lookup
use syncctl.Base.{
  ℕ, Bool, true, false, none, some, List, [], ◌∷◌, ◌++◌, Text, Option, if◌then◌else◌,
}
use syncctl.Base.Result.{Result, ok, err}
use syncctl.Base.Int.{ℤ, pos, ltb_ℤ}
use syncctl.Config.Types.{Config, FailoverConfig, SshPolicy}
use syncctl.Dbkey.{CheckError}
use syncctl.Effects.{Action, Event, Log, SshError}
use syncctl.Readonly.{ReadonlyError}
use syncctl.Ssh.Command.{SshConfig}
use syncctl.Ssh.{HostError}

-- The settings of a `Controller`. The interval and the client's timeout only say when and how long
-- it asks.
pub record Controller : Type 0 where
  pub cfg : Config
  pub ssh_cfg : SshConfig
  pub health_urls : List Text
  pub quorum : ℤ
  pub auto_failover : Bool
  pub dry_run : Bool
  pub force : Bool
  pub wipe_pg_data : Bool

-- The state of a `Controller`, with the log of what it asked of the outside.
pub record State : Type 0 where
  pub primary_down : Bool
  pub consecutive_fails : ℕ
  pub log : Log

pub data FailoverError : Type 0 where
  secondary_not_found : Text → FailoverError
  no_secondaries ambiguous_secondary : FailoverError
  promote_secondary_unknown : FailoverError → FailoverError
  failover_disabled : FailoverError
  primary_answers : FailoverError
  keys_differ : CheckError → FailoverError
  host_refused : HostError → FailoverError
  ssh_failed : Text → SshError → FailoverError
  read_only_failed : ReadonlyError → FailoverError
  pg_data_not_empty : Text → FailoverError
  passfile_failed : Text → SshError → FailoverError
  step_failed : Text → FailoverError → FailoverError

-- `SSHExecConfig`
abbrev ssh_exec_config : SshPolicy → SshConfig
ssh_exec_config p = record {
  known_hosts_file = p.known_hosts_file;
  strict_host_key_checking = p.strict_host_key_checking;
}

abbrev at_least_one : ℤ → ℤ
at_least_one n = if ltb_ℤ n (pos 1) then pos 1 else n

-- The settings that `New` takes from the failover block, if there is one.
with_block : Controller → Option FailoverConfig → Controller
with_block c none = record c { quorum = at_least_one (pos 1) }
with_block c (some f) = record c {
  health_urls = c.health_urls ++ f.health_check_urls;
  quorum = at_least_one f.quorum_required;
  auto_failover = f.auto_failover;
}

-- `New`
unfoldable pub new_controller : Config → Bool → Controller
unfolding with_block
new_controller cfg dry_run =
    with_block
      (record {
        cfg = cfg;
        ssh_cfg = ssh_exec_config cfg.ssh;
        health_urls = cfg.primary.external_url ∷ [];
        quorum = pos 0;
        auto_failover = false;
        dry_run = dry_run;
        force = false;
        wipe_pg_data = false;
      })
      cfg.failover

-- `SetForce` and `SetWipePGData`
abbrev set_force : Bool → Controller → Controller
set_force on c = record c { force = on }

abbrev set_wipe_pg_data : Bool → Controller → Controller
set_wipe_pg_data on c = record c { wipe_pg_data = on }

abbrev pub Act : Type 0 → Type 0
Act A = Action State FailoverError A

-- An action that only asks the outside.
abbrev pub set_log : {E A : Type 0} → State → Result E A × Log → Result E A × State
set_log s (r, l) = (r, record s { log = l })

abbrev pub lift : {E A : Type 0} → Action Log E A → Action State E A
lift m s = set_log s (m s.log)
