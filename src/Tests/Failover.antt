-- ===== src/Tests/Failover.antt =====
-- The theorems about failover.go at one configuration with a primary that is down.
use syncctl.Base.{
  Bool, true, false, none, [], ◌∷◌, ◌++◌, map, ◌≡◌, refl, ◌&&◌, ◌⊎◌, Text, codes, is_empty,
}
use syncctl.Base.Int.{pos}
use syncctl.Base.Numbers.{atoi}
use syncctl.Base.Result.{Result, ok, err}
use syncctl.Base.Strings.{
  contains_any, contains_byte, count_byte, cut, cut_last, has_prefix, trim_space,
}
use syncctl.Config.Types.{Config, SiteConfig}
use syncctl.Dbkey.Mismatch.{Mismatch}
use syncctl.Dbkey.{key_mismatch}
use syncctl.Effects.{World, poll, combined_output}
use syncctl.Failover.Adoption.Occupied.{Occupied, LeftAlone, adopt_as_secondary-LeftAlone}
use syncctl.Failover.Adoption.Order.{Adopted, adopt_as_secondary-Adopted}
use syncctl.Failover.Adoption.{adopt_as_secondary}
use syncctl.Failover.Choice.{IsTarget, auto_failover_target-IsTarget}
use syncctl.Failover.Monitor.{check, run_checks, start}
use syncctl.Failover.Outcomes.{promote-dry_run, verify_db_key_parity-err}
use syncctl.Failover.Promotion.{promote}
use syncctl.Failover.Safety.{Promoted, promote-Promoted}
use syncctl.Failover.Steps.{verify_db_key_parity}
use syncctl.Failover.Streak.{fails_now, Triggers, run_checks-primary_down, check-Triggers}
use syncctl.Failover.Targets.{find_secondary, auto_failover_target, resolve_new_primary}
use syncctl.Failover.{Controller, State, FailoverError, keys_differ, new_controller}
use syncctl.Ssh.{Endpoint, check_host, host_char, parse_endpoint}

abbrev site_named : Text → Text → SiteConfig
site_named name host = record {
  name = name;
  external_url = codes "https://git.example.com";
  postgres = record {
    host = codes "10.0.0.5";
    port = pos 5432;
    db = codes "gitlabhq";
    user = codes "gitlab";
    password = codes "s3cret";
    replication_user = codes "repl";
    replication_password = codes "pw";
    slot_name = codes "slot";
    ssl_mode = [];
    ssl_root_cert = [];
    ssl_cert = [];
    ssl_key = [];
  };
  git = record { mode = codes "rsync"; repos_path = codes "/repos"; hashed_storage = false };
  object_store = record { backend = codes "fs"; s3 = none; fs_paths = [] };
  registry = none;
  ssh_host = host;
}

abbrev pub two_sites : Bool → Config
two_sites enabled = record {
  primary = site_named (codes "a") (codes "a.example.com");
  secondaries = site_named (codes "b") (codes "b.example.com") ∷ [];
  sync = record {
    sweep_interval = pos 1;
    lag_warning_threshold = pos 1;
    lag_critical_threshold = pos 1;
    failover_enabled = enabled;
    read_only_secondary = true;
    consistency_sample_pct = record { numerator = pos 1; denominator = 100 };
  };
  metrics = record { addr = codes "127.0.0.1:9101" };
  log = record { level = codes "info"; format = codes "json"; redact_project_paths = false };
  control_db = [];
  webhook = none;
  api_validator = none;
  failover = none;
  ssh = record { known_hosts_file = []; strict_host_key_checking = [] };
}

-- No health URL answers, and every command prints a line with the name of its host.
abbrev pub outage : World
outage = record {
  healthy = λ l url. false;
  reply = λ l host cmd stdin. record { output = codes "db_key_base: " ++ host; failed = false };
  cancelled = λ l. false;
}

abbrev controller : Bool → Bool → Controller
controller enabled dry = record {
  cfg = two_sites enabled;
  ssh_cfg = record { known_hosts_file = []; strict_host_key_checking = [] };
  health_urls = codes "https://git.example.com" ∷ [];
  quorum = pos 1;
  auto_failover = true;
  dry_run = dry;
  force = false;
  wipe_pg_data = false;
}

abbrev pub second : SiteConfig
second = site_named (codes "b") (codes "b.example.com")

new_controller-two_sites :
    new_controller (two_sites true) false ≡ record (controller true false) { auto_failover = false }
unfolding new_controller
new_controller-two_sites = refl

second_found : (enabled : Bool) → find_secondary (two_sites enabled) (codes "b") ≡ ok second
unfolding find_secondary
second_found enabled = refl

promote-Promoted_example :
    Promoted outage
      (controller true false)
      (codes "b.example.com")
      start
      (promote outage (controller true false) (codes "b") start)
promote-Promoted_example =
    promote-Promoted outage (controller true false) (codes "b") start (second_found true) refl

promote-dry_run_example : promote outage (controller false true) (codes "b") start ≡ (ok tt, start)
promote-dry_run_example =
    promote-dry_run outage (controller false true) (codes "b") start (second_found false) refl

-- All that a run of a command computes with.
run_parity : Controller → SiteConfig → State → Result FailoverError (Unit {0}) × State
unfolding verify_db_key_parity parse_endpoint host_char atoi contains_any contains_byte cut_last
    count_byte cut has_prefix
run_parity = verify_db_key_parity outage

mismatch_found :
    (verify_db_key_parity outage (controller true false) second start).0
    ≡ err (keys_differ key_mismatch)
unfolding run_parity check_host combined_output
mismatch_found = refl

verify_db_key_parity-err_example :
    (is_empty (codes "a.example.com") ≡ false)
    × (is_empty (codes "b.example.com") ≡ false)
    × Mismatch outage
        (combined_output outage (controller true false).ssh_cfg)
        (codes "a.example.com")
        (codes "b.example.com")
        []
    × (keys_differ key_mismatch ≡ keys_differ key_mismatch)
verify_db_key_parity-err_example =
    verify_db_key_parity-err outage (controller true false) second start mismatch_found

run_checks-primary_down_example :
    (run_checks outage (controller true false) 3 start).primary_down ≡ (
      fails_now outage (controller true false) (run_checks outage (controller true false) 0 start)
      && fails_now outage
          (controller true false)
          (run_checks outage (controller true false) 1 start)
      && fails_now outage
          (controller true false)
          (run_checks outage (controller true false) 2 start))
run_checks-primary_down_example = run_checks-primary_down outage (controller true false) 0

check-Triggers_example :
    ((check outage (controller true false) start).log
      ≡ start.log ++ map poll (controller true false).health_urls)
    ⊎ Triggers outage (controller true false) start
check-Triggers_example = check-Triggers outage (controller true false) start

sole_target : auto_failover_target (two_sites true) ≡ ok (codes "b")
unfolding auto_failover_target
sole_target = refl

auto_failover_target-IsTarget_example : IsTarget (two_sites true) (codes "b")
auto_failover_target-IsTarget_example = auto_failover_target-IsTarget (two_sites true) sole_target

new_primary : resolve_new_primary (two_sites true) [] ≡ ok second
unfolding resolve_new_primary
new_primary = refl

abbrev old_primary : Endpoint
old_primary = record { user = []; host = codes "a.example.com"; port = [] }

old_primary_parsed : parse_endpoint (codes "a.example.com") ≡ ok old_primary
unfolding run_parity
old_primary_parsed = refl

occupied : Occupied outage (codes "a.example.com")
unfolding trim_space
occupied = record { answers = λ l. refl; lists = λ l. refl }

adopt_as_secondary-Adopted_example :
    Adopted outage
      (controller true false)
      (codes "a.example.com")
      second.postgres
      start
      (adopt_as_secondary outage (controller true false) (codes "a.example.com") [] start)
adopt_as_secondary-Adopted_example =
    adopt_as_secondary-Adopted outage (controller true false) (codes "a.example.com") [] start
      new_primary old_primary_parsed refl refl

adopt_as_secondary-LeftAlone_example :
    LeftAlone outage
      (controller true false)
      (codes "a.example.com")
      start
      (adopt_as_secondary outage (controller true false) (codes "a.example.com") [] start)
adopt_as_secondary-LeftAlone_example =
    adopt_as_secondary-LeftAlone outage (controller true false) (codes "a.example.com") [] start
      new_primary occupied old_primary_parsed refl refl refl
