-- ===== src/Config/Validate.antt =====
-- internal/config/config.go: `validate`, which returns all errors at once and fills in defaults.
-- Its warnings, which only log, are left out.
pub mod Defaults
pub mod Parts
pub mod Sound
use syncctl.Base.{
  ℕ, suc, ◌+◌, Bool, true, false, not, ◌&&◌, ◌||◌, Option, none, some, List, [], ◌∷◌, ◌++◌, any,
  ◌==◌, Text, codes, is_empty, text_eq, if◌then◌else◌,
}
use syncctl.Base.Int.{ℤ, pos, negsuc}
use syncctl.Base.Result.{Result, ok, err}
use syncctl.Config.Types.{
  Config, SiteConfig, SshPolicy, WebhookConfig, FailoverConfig, SyncConfig, MetricsConfig,
  LogConfig, Duration, Fraction,
}
use syncctl.Ssh.{Endpoint, HostError, parse_endpoint}

-- The site that an error is about.
pub data Label : Type 0 where
  at_primary : Label
  at_secondary : ℕ → Label

pub data ConfigError : Type 0 where
  primary_name_required primary_url_required primary_pg_host_required : ConfigError
  primary_pg_port_required primary_replication_user_required : ConfigError
  primary_replication_password_required : ConfigError
  ssh_host_invalid : Label → HostError → ConfigError
  checking_invalid : Text → ConfigError
  url_invalid : Label → Text → ConfigError
  url_scheme : Label → Text → Text → ConfigError
  url_no_host : Label → Text → ConfigError
  tls_key_missing tls_cert_missing : ConfigError
  git_mode_required repos_path_required no_secondaries : ConfigError
  git_mode_invalid : Text → ConfigError
  secondary_name_required secondary_pg_host_required : ℕ → ConfigError
  secondary_name_duplicated : ℕ → Text → ConfigError
  secondary_replication_password_required : ℕ → ConfigError

-- `url.Parse`, as far as it is used: the scheme and the host, or an error.
pub record Url : Type 0 where
  pub scheme : Text
  pub host : Text

abbrev pub when : Bool → ConfigError → List ConfigError
when b e = if b then e ∷ [] else []

abbrev pub is_zero : ℤ → Bool
is_zero (pos n) = n == 0
is_zero (negsuc n) = false

unfoldable pub primary_errors : SiteConfig → List ConfigError
primary_errors p =
    when (is_empty p.name) primary_name_required
    ++ (when (is_empty p.external_url) primary_url_required
        ++ (when (is_empty p.postgres.host) primary_pg_host_required
            ++ (when (is_zero p.postgres.port) primary_pg_port_required
                ++ (when (is_empty p.postgres.replication_user) primary_replication_user_required
                    ++ when (is_empty p.postgres.replication_password)
                        primary_replication_password_required))))

unfoldable pub parsed_errors : Label → Result HostError Endpoint → List ConfigError
parsed_errors label (ok e) = []
parsed_errors label (err e) = ssh_host_invalid label e ∷ []

unfoldable pub ssh_host_errors : Label → Text → List ConfigError
unfolding parsed_errors parse_endpoint
ssh_host_errors label host = if is_empty host then [] else parsed_errors label (parse_endpoint host)

-- What a check says of each secondary, with its index.
unfoldable pub each_secondary :
    (Label → SiteConfig → List ConfigError) → ℕ → List SiteConfig → List ConfigError
each_secondary check i [] = []
each_secondary check i (s ∷ rest) = check (at_secondary i) s ++ each_secondary check (suc i) rest

-- `validateSSHHosts`
unfoldable pub ssh_errors : Config → List ConfigError
unfolding ssh_host_errors each_secondary
ssh_errors c =
    ssh_host_errors at_primary c.primary.ssh_host
    ++ each_secondary (λ label s. ssh_host_errors label s.ssh_host) 0 c.secondaries

-- `validateSSHPolicy`
unfoldable pub policy_errors : SshPolicy → List ConfigError
unfolding text_eq
policy_errors p =
    let mode = p.strict_host_key_checking in
    when
      (not (
        is_empty mode
        || text_eq mode (codes "yes")
        || text_eq mode (codes "no")
        || text_eq mode (codes "accept-new")))
      (checking_invalid mode)

-- `validateWebhookTLS`
unfoldable pub tls_errors : Option WebhookConfig → List ConfigError
tls_errors none = []
tls_errors (some w) =
    if not (is_empty w.tls_cert) && is_empty w.tls_key
    then tls_key_missing ∷ []
    else if not (is_empty w.tls_key) && is_empty w.tls_cert
    then tls_cert_missing ∷ []
    else []

unfoldable pub git_errors : SiteConfig → List ConfigError
unfolding text_eq
git_errors p =
    let mode = p.git.mode in
    when (is_empty mode) git_mode_required
    ++ (when (not (text_eq mode (codes "rsync") || text_eq mode (codes "fetch")))
          (git_mode_invalid mode)
        ++ when (text_eq mode (codes "rsync") && is_empty p.git.repos_path) repos_path_required)

unfoldable pub secondary_errors : ℕ → List Text → SiteConfig → List ConfigError
unfolding text_eq
secondary_errors i seen s =
    when (is_empty s.name) (secondary_name_required i)
    ++ (when (not (is_empty s.name) && any (text_eq s.name) seen)
          (secondary_name_duplicated i s.name)
        ++ (when (is_empty s.postgres.host) (secondary_pg_host_required i)
            ++ when (is_empty s.postgres.replication_password)
                (secondary_replication_password_required i)))

-- The loop over the secondaries, with the names seen so far.
unfoldable pub secondaries_errors : ℕ → List Text → List SiteConfig → List ConfigError
unfolding secondary_errors
secondaries_errors i seen [] = []
secondaries_errors i seen (s ∷ rest) =
    secondary_errors i seen s ++ secondaries_errors (suc i) (s.name ∷ seen) rest

unfoldable pub no_secondaries_errors : List SiteConfig → List ConfigError
no_secondaries_errors [] = no_secondaries ∷ []
no_secondaries_errors (s ∷ rest) = []

abbrev or_default : {A : Type 0} → Bool → A → A → A
or_default unset default value = if unset then default else value

unfoldable pub failover_defaults : Option FailoverConfig → Option FailoverConfig
failover_defaults none = none
failover_defaults (some f) = some (record f {
  health_check_interval =
      or_default (is_zero f.health_check_interval) (pos 10000000000) f.health_check_interval;
  quorum_required = or_default (is_zero f.quorum_required) (pos 1) f.quorum_required;
  dns_plugin = or_default (is_empty f.dns_plugin) (codes "none") f.dns_plugin;
})

unfoldable pub sync_defaults : SyncConfig → SyncConfig
sync_defaults s = record s {
  sweep_interval = or_default (is_zero s.sweep_interval) (pos 300000000000) s.sweep_interval;
  lag_warning_threshold =
      or_default (is_zero s.lag_warning_threshold) (pos 30000000000) s.lag_warning_threshold;
  lag_critical_threshold =
      or_default (is_zero s.lag_critical_threshold) (pos 300000000000) s.lag_critical_threshold;
  consistency_sample_pct =
      or_default (is_zero s.consistency_sample_pct.numerator)
        (record { numerator = pos 1; denominator = 100 }) s.consistency_sample_pct;
}

unfoldable pub set_defaults : Config → Config
unfolding sync_defaults failover_defaults
set_defaults c = record c {
  sync = sync_defaults c.sync;
  metrics = record {
    addr = or_default (is_empty c.metrics.addr) (codes "127.0.0.1:9101") c.metrics.addr;
  };
  log = record c.log {
    level = or_default (is_empty c.log.level) (codes "info") c.log.level;
    format = or_default (is_empty c.log.format) (codes "json") c.log.format;
  };
  failover = failover_defaults c.failover;
}

module _ (parse_url : Text → Option Url) where
  unfoldable pub parsed_url_errors : Label → Text → Option Url → List ConfigError
  unfolding text_eq
  parsed_url_errors label raw none = url_invalid label raw ∷ []
  parsed_url_errors label raw (some u) =
      if text_eq u.scheme (codes "https") || text_eq u.scheme (codes "http")
      then when (is_empty u.host) (url_no_host label raw)
      else url_scheme label raw u.scheme ∷ []

  unfoldable pub url_errors : Label → Text → List ConfigError
  unfolding parsed_url_errors
  url_errors label raw = if is_empty raw then [] else parsed_url_errors label raw (parse_url raw)

  -- `validateExternalURLs`
  unfoldable pub external_url_errors : Config → List ConfigError
  unfolding url_errors each_secondary
  external_url_errors c =
      url_errors at_primary c.primary.external_url
      ++ each_secondary (λ label s. url_errors label s.external_url) 0 c.secondaries

  -- `validate`: the errors, and the configuration with its defaults.
  unfoldable pub validate : Config → List ConfigError × Config
  unfolding primary_errors ssh_errors policy_errors external_url_errors tls_errors git_errors
      no_secondaries_errors secondaries_errors set_defaults
  validate c = (
    primary_errors c.primary
        ++ (ssh_errors c
            ++ (policy_errors c.ssh
                ++ (external_url_errors c
                    ++ (tls_errors c.webhook
                        ++ (git_errors c.primary
                            ++ (no_secondaries_errors c.secondaries
                                ++ secondaries_errors 0 [] c.secondaries)))))),
    set_defaults c,
  )
