-- ===== src/Tests/Config.antt =====
-- The theorems about config.go, projectpath.go, retry.go and runner.go at concrete values.
use syncctl.Base.{
  ◌↔◌, ◌≢◌, All, ℕ, true, false, none, some, Option, [], ◌∷◌, ◌++◌, ◌==◌, ◌≡◌, refl, arith,
  is_empty, ◌⊎◌, Text, codes, if◌then◌else◌,
}
use syncctl.Base.Int.{pos}
use syncctl.Base.Numbers.{atoi}
use syncctl.Base.Result.{ok}
use syncctl.Base.Strings.{contains_any, contains_byte, count_byte, cut, cut_last, has_prefix}
use syncctl.Config.Dsn.Conninfo.{conninfo}
use syncctl.Config.Dsn.RoundTrip.{IsReadable, application_pair, conninfo-dsn}
use syncctl.Config.Dsn.{dsn, dsn_pairs, password_pair, replication_conn_info, replication_dsn}
use syncctl.Config.Types.{PostgresConfig}
use syncctl.Config.Validate.Sound.{IsValid, validate-IsValid}
use syncctl.Config.Validate.{Url, validate}
use syncctl.Failover.Lookup.{find_secondary-listed}
use syncctl.Failover.Targets.{find_secondary}
use syncctl.ProjectPath.Safe.{IsContained, validate-IsContained}
use syncctl.ProjectPath
use syncctl.Reconciler.Retry.Settling.{IsRun, retry-IsRun}
use syncctl.Reconciler.Retry.{retry}
use syncctl.Config.Secrets.References.{here, in_struct, walk-Resolved}
use syncctl.Config.Paths.{HasPaths, validate_paths, validate_paths-HasPaths}
use syncctl.Config.Secrets.Resolve
use syncctl.Config.Secrets.Resolve.{entry, resolve, resolve-MapIn, within}
use syncctl.Config.Secrets.{
  mapping, item, end, Value, str, struct, field, stop, ref_at, expand_env, is_reference, walk,
}
use syncctl.Ssh.{host_char}
use syncctl.Tests.Failover.{two_sites, second}

abbrev spaced : PostgresConfig
spaced = record second.postgres { password = codes "it's a secret" }

spaced_control : IsReadable spaced spaced.user (some spaced.password) spaced.db
unfolding contains_any contains_byte password_pair
spaced_control = record {
  host = refl;
  user_name = refl;
  secret = (refl, tt);
  database = refl;
  ssl_mode = refl;
  ssl_root_cert = refl;
  ssl_cert = refl;
  ssl_key = refl;
}

spaced_replication :
    IsReadable spaced spaced.replication_user
      (some spaced.replication_password)
      (codes "replication")
unfolding contains_any contains_byte password_pair
spaced_replication = record {
  host = refl;
  user_name = refl;
  secret = (refl, tt);
  database = refl;
  ssl_mode = refl;
  ssl_root_cert = refl;
  ssl_cert = refl;
  ssl_key = refl;
}

dsn-spaced :
    dsn spaced
    ≡ codes
        "host=10.0.0.5 port=5432 user=gitlab password='it\\'s a secret' dbname=gitlabhq sslmode=require"
unfolding dsn contains_any contains_byte
dsn-spaced = refl

conninfo-dsn_example :
    (conninfo (dsn spaced) ≡ some (dsn_pairs spaced spaced.user (some spaced.password) spaced.db))
    × (conninfo (replication_dsn spaced)
        ≡ some (
            dsn_pairs spaced spaced.replication_user
              (some spaced.replication_password)
              (codes "replication")
            ++ application_pair ∷ []))
    × (conninfo (replication_conn_info spaced).0
        ≡ some (
            dsn_pairs spaced spaced.replication_user none (codes "replication")
            ++ application_pair ∷ []))
conninfo-dsn_example = conninfo-dsn spaced spaced_control spaced_replication

-- Enough of `url.Parse` for the configuration of the tests.
abbrev https_url : Text → Option Url
https_url raw = some (record { scheme = codes "https"; host = codes "git.example.com" })

two_sites_fine : (validate https_url (two_sites true)).0 ≡ []
unfolding validate host_char atoi contains_any contains_byte cut_last count_byte cut has_prefix
two_sites_fine = refl

validate-IsValid_example : IsValid https_url (two_sites true)
validate-IsValid_example = validate-IsValid https_url (two_sites true) two_sites_fine

find_secondary-listed_example : find_secondary (two_sites true) (codes "b") ≡ ok second
find_secondary-listed_example =
    find_secondary-listed https_url (two_sites true) two_sites_fine [] second [] refl

nested_fine : ProjectPath.validate (codes "group/sub.group/repo-1") ≡ ok tt
unfolding ProjectPath.validate
nested_fine = refl

validate-IsContained_example : IsContained (codes "group/sub.group/repo-1")
validate-IsContained_example = validate-IsContained (codes "group/sub.group/repo-1") nested_fine

-- Two failures, and then a success.
abbrev third_time : ℕ → Option Text
third_time n = if n == 3 then none else some (codes "busy")

retry-IsRun_example :
    IsRun third_time
      (λ n. false)
      (pos 30)
      5
      1
      (retry third_time (λ n. false) (pos 30) (pos 5) (pos 10))
retry-IsRun_example = retry-IsRun third_time (λ n. false) (pos 30) 4 (pos 10) (omega arith)

abbrev secret : Text
secret = codes "${PG_PASSWORD}"

abbrev one_secret : Value
one_secret = struct (field true (codes "password") true (str secret) stop)

secret_is_reference : is_reference secret ≡ true
unfolding is_reference
secret_is_reference = refl

one_secret-clean : walk one_secret [] ≡ []
unfolding walk is_reference
one_secret-clean = refl

abbrev env_of : Text → Option Text
env_of name = some (codes "s3cret ${X}")

walk-Resolved_example :
    (secret ≡ [])
    ⊎ ((name : Text) × (ref_at secret ≡ some (name, []))
        × ((value : Text)
            → env_of name ≡ some value
            → is_empty value ≡ false
            → expand_env env_of secret ≡ ok value))
walk-Resolved_example = walk-Resolved env_of [] one_secret-clean (in_struct here)

abbrev dns_fields : Value
dns_fields =
    struct (field true (codes "dns_config") false (mapping (item (str (codes "zone")) end)) stop)

resolve-MapIn_example : resolve env_of true dns_fields ≢ ok dns_fields
resolve-MapIn_example = resolve-MapIn env_of (Resolve.in_struct (within entry))

two_sites_paths : validate_paths (two_sites true) ≡ []
unfolding validate_paths contains_any contains_byte
two_sites_paths = refl

validate_paths-HasPaths_example :
    (validate_paths (two_sites true) ≡ [])
    ↔ (HasPaths (two_sites true).primary × All HasPaths (two_sites true).secondaries)
validate_paths-HasPaths_example = validate_paths-HasPaths (two_sites true)
