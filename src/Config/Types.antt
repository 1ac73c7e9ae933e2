-- ===== src/Config/Types.antt =====
-- internal/config/config.go: the structs. A duration is its nanoseconds, a fraction stands for a
-- `float64`, and a pointer to a block that may be left out is an option.
use syncctl.Base.{ℕ, Bool, Option, List, Text}
use syncctl.Base.Int.{ℤ}

abbrev pub Duration : Type 0
Duration = ℤ

-- The value `numerator / denominator`.
pub record Fraction : Type 0 where
  pub numerator : ℤ
  pub denominator : ℕ

pub record PostgresConfig : Type 0 where
  pub host : Text
  pub port : ℤ
  pub db : Text
  pub user : Text
  pub password : Text
  pub replication_user : Text
  pub replication_password : Text
  pub slot_name : Text
  pub ssl_mode : Text
  pub ssl_root_cert : Text
  pub ssl_cert : Text
  pub ssl_key : Text

pub record GitStorage : Type 0 where
  pub mode : Text
  pub repos_path : Text
  pub hashed_storage : Bool

pub record S3Config : Type 0 where
  pub region : Text
  pub primary_bucket : Text
  pub replica_bucket : Text
  pub access_key : Text
  pub secret_key : Text
  pub endpoint : Text
  pub replication_lag : Duration

pub record ObjectStoreConfig : Type 0 where
  pub backend : Text
  pub s3 : Option S3Config
  pub fs_paths : List Text

pub record RegistryConfig : Type 0 where
  pub mode : Text
  pub url : Text
  pub token : Text
  pub auth_realm : Text
  pub fs_path : Text
  pub s3 : Option S3Config

pub record SiteConfig : Type 0 where
  pub name : Text
  pub external_url : Text
  pub postgres : PostgresConfig
  pub git : GitStorage
  pub object_store : ObjectStoreConfig
  pub registry : Option RegistryConfig
  pub ssh_host : Text

pub record SyncConfig : Type 0 where
  pub sweep_interval : Duration
  pub lag_warning_threshold : Duration
  pub lag_critical_threshold : Duration
  pub failover_enabled : Bool
  pub read_only_secondary : Bool
  pub consistency_sample_pct : Fraction

pub record MetricsConfig : Type 0 where
  pub addr : Text

pub record LogConfig : Type 0 where
  pub level : Text
  pub format : Text
  pub redact_project_paths : Bool

pub record WebhookConfig : Type 0 where
  pub addr : Text
  pub secret_token : Text
  pub tls_cert : Text
  pub tls_key : Text

pub record ApiValidatorConfig : Type 0 where
  pub enabled : Bool
  pub primary_token : Text
  pub secondary_token : Text

pub record FailoverConfig : Type 0 where
  pub health_check_urls : List Text
  pub health_check_interval : Duration
  pub quorum_required : ℤ
  pub dns_plugin : Text
  pub dns_config : List (Text × Text)
  pub auto_failover : Bool
  pub promote_secondary : Text

pub record SshPolicy : Type 0 where
  pub known_hosts_file : Text
  pub strict_host_key_checking : Text

pub record Config : Type 0 where
  pub primary : SiteConfig
  pub secondaries : List SiteConfig
  pub sync : SyncConfig
  pub metrics : MetricsConfig
  pub log : LogConfig
  pub control_db : Text
  pub webhook : Option WebhookConfig
  pub api_validator : Option ApiValidatorConfig
  pub failover : Option FailoverConfig
  pub ssh : SshPolicy
