-- ===== src/Config/Dsn.antt =====
-- internal/config/config.go: the connection strings for libpq.
pub mod Conninfo
pub mod Bytes
pub mod Reading
pub mod RoundTrip
pub mod Unquoted
use syncctl.Base.{
  ℕ, Bool, true, false, not, ◌||◌, Option, none, some, List, [], ◌∷◌, ◌++◌, ◌==◌, Text, codes,
  is_empty, if◌then◌else◌,
}
use syncctl.Base.Numbers.{itoa}
use syncctl.Base.Strings.{contains_any}
use syncctl.Config.Types.{PostgresConfig}

-- `kv`
pub record Kv : Type 0 where
  pub key : Text
  pub val : Text

-- The replacer: a backslash before each backslash and each single quote.
unfoldable pub escape_value : Text → Text
escape_value [] = []
escape_value (c ∷ v) =
    if c == b'\\' || c == b'\'' then b'\\' ∷ c ∷ escape_value v else c ∷ escape_value v

-- `quoteLibPQValue`
unfoldable pub quote_value : Text → Text
unfolding contains_any escape_value
quote_value v =
    if is_empty v
    then codes "''"
    else if not (contains_any v (codes " '\\"))
    then v
    else b'\'' ∷ (escape_value v ++ b'\'' ∷ [])

unfoldable pub effective_ssl_mode : PostgresConfig → Text
effective_ssl_mode p = if is_empty p.ssl_mode then codes "require" else p.ssl_mode

unfoldable pub pair_text : Kv → Text
unfolding quote_value
pair_text p = p.key ++ b'=' ∷ quote_value p.val

-- The loop over the pairs, with a blank before each but the first.
unfoldable pub write_pairs : List Kv → Text
unfolding pair_text
write_pairs [] = []
write_pairs (p ∷ []) = pair_text p
write_pairs (p ∷ q ∷ rest) = pair_text p ++ 0x20 ∷ write_pairs (q ∷ rest)

-- A pair that is left out where its value is empty.
abbrev pub if_set : Text → Text → List Kv
if_set key val = if is_empty val then [] else record { key = key; val = val } ∷ []

unfoldable pub password_pair : Option Text → List Kv
password_pair none = []
password_pair (some password) = record { key = codes "password"; val = password } ∷ []

unfoldable pub dsn_pairs : PostgresConfig → Text → Option Text → Text → List Kv
unfolding itoa effective_ssl_mode password_pair
dsn_pairs p user password db =
    record { key = codes "host"; val = p.host }
    ∷ record { key = codes "port"; val = itoa p.port }
    ∷ record { key = codes "user"; val = user }
    ∷ (password_pair password
        ++ (record { key = codes "dbname"; val = db }
            ∷ record { key = codes "sslmode"; val = effective_ssl_mode p }
            ∷ (if_set (codes "sslrootcert") p.ssl_root_cert
                ++ (if_set (codes "sslcert") p.ssl_cert ++ if_set (codes "sslkey") p.ssl_key))))

-- `dsnFrom` and `buildDSN`
unfoldable pub dsn_from : PostgresConfig → Text → Option Text → Text → Text → Text
unfolding dsn_pairs write_pairs
dsn_from p user password db extra =
    let text = write_pairs (dsn_pairs p user password db) in
    if is_empty extra then text else text ++ 0x20 ∷ extra

unfoldable pub build_dsn : PostgresConfig → Text → Text → Text → Text → Text
unfolding dsn_from
build_dsn p user password db extra = dsn_from p user (some password) db extra

-- `DSN`, `ReplicationDSN` and `ReplicationConnInfo`
unfoldable pub dsn : PostgresConfig → Text
unfolding build_dsn
dsn p = build_dsn p p.user p.password p.db []

unfoldable pub replication_dsn : PostgresConfig → Text
unfolding build_dsn
replication_dsn p =
    build_dsn p p.replication_user p.replication_password (codes "replication")
      (codes "application_name=syncctl")

unfoldable pub replication_conn_info : PostgresConfig → Text × Text
unfolding dsn_from
replication_conn_info p = (
  dsn_from p p.replication_user none (codes "replication") (codes "application_name=syncctl"),
  p.replication_password,
)
