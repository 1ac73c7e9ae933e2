-- ===== src/Config/Dsn/RoundTrip.antt =====
-- config.go, `DSN`, `ReplicationDSN` and `ReplicationConnInfo`, and the reader of libpq.
use mathlib.Core.List.{append_assoc}
use syncctl.Base.{
  ℕ, true, false, not, Option, none, some, List, [], ◌∷◌, ◌++◌, ◌≡◌, refl, ◌∙◌, ap, sym, arith, all,
  All, All-append, Text, codes, is_empty, leb, length, if_both,
}
use syncctl.Base.Numbers.Laws.{itoa-all, sign_or_digit}
use syncctl.Base.Numbers.{itoa}
use syncctl.Base.Int.{ℤ}
use syncctl.Base.Strings.Laws.{all_mono}
use syncctl.Config.Dsn.Conninfo.{c_space, begin, conninfo}
use syncctl.Config.Dsn.Bytes.{key_byte, readable}
use syncctl.Config.Dsn.Reading.{IsPair, read-write_pairs}
use syncctl.Config.Dsn.{
  Kv, quote_value, pair_text, write_pairs, if_set, password_pair, dsn_pairs, effective_ssl_mode,
  dsn_from, build_dsn, dsn, replication_dsn, replication_conn_info,
}
use syncctl.Config.Types.{PostgresConfig}

conninfo-write_pairs :
    (p : Kv) (ps : List Kv) → All IsPair (p ∷ ps) → conninfo (write_pairs (p ∷ ps)) ≡ some (p ∷ ps)
unfolding conninfo
conninfo-write_pairs p ps h = read-write_pairs p ps begin h

-- Writing two lists one behind the other.
write_pairs-append :
    (p : Kv) (ps : List Kv) (q : Kv) (qs : List Kv)
    → write_pairs ((p ∷ ps) ++ q ∷ qs) ≡ write_pairs (p ∷ ps) ++ 0x20 ∷ write_pairs (q ∷ qs)
unfolding write_pairs
write_pairs-append p [] q qs = refl
write_pairs-append p (r ∷ ps) q qs =
    ap (λ x. pair_text p ++ 0x20 ∷ x) (write_pairs-append r ps q qs)
    ∙ sym (append_assoc (pair_text p) (0x20 ∷ write_pairs (r ∷ ps)) (0x20 ∷ write_pairs (q ∷ qs)))

IsPair-if_set :
    (key val : Text) → IsPair (record { key = key; val = val }) → All IsPair (if_set key val)
IsPair-if_set key val h = if_both (All IsPair) (is_empty val) tt (h, tt)

signed_no_space : (c : ℕ) → sign_or_digit c ≡ true → not (c_space c) ≡ true
unfolding sign_or_digit
signed_no_space c h = ground arith

no_space-readable : (v : Text) → all (λ c. not (c_space c)) v ≡ true → readable v ≡ true
no_space-readable v h = ground arith

itoa-readable : (n : ℤ) → readable (itoa n) ≡ true
itoa-readable n = no_space-readable (itoa n) (all_mono (itoa n) signed_no_space (itoa-all n))

-- Every value of a connection string either needs quotes by the test of `quoteLibPQValue` or has
-- none of C's blanks.
pub record IsReadable (p : PostgresConfig) (user : Text) (password : Option Text) (db : Text)
    : Type 0 where
  pub host : readable p.host ≡ true
  pub user_name : readable user ≡ true
  pub secret : All (λ (q : Kv). readable q.val ≡ true) (password_pair password)
  pub database : readable db ≡ true
  pub ssl_mode : readable p.ssl_mode ≡ true
  pub ssl_root_cert : readable p.ssl_root_cert ≡ true
  pub ssl_cert : readable p.ssl_cert ≡ true
  pub ssl_key : readable p.ssl_key ≡ true

IsPair-of :
    (key val : Text)
    → is_empty key ≡ false
    → all key_byte key ≡ true
    → readable val ≡ true
    → IsPair (record { key = key; val = val })
IsPair-of key val a b c = record { key_set = a; key_bytes = b; value_readable = c }

password_pair-IsPair :
    (password : Option Text)
    → All (λ (q : Kv). readable q.val ≡ true) (password_pair password)
    → All IsPair (password_pair password)
unfolding password_pair
password_pair-IsPair none h = tt
password_pair-IsPair (some secret) (h, _) = (IsPair-of (codes "password") secret refl refl h, tt)

ssl_pairs-IsPair :
    (p : PostgresConfig)
    → readable p.ssl_root_cert ≡ true
    → readable p.ssl_cert ≡ true
    → readable p.ssl_key ≡ true
    → All IsPair (
        if_set (codes "sslrootcert") p.ssl_root_cert
        ++ (if_set (codes "sslcert") p.ssl_cert ++ if_set (codes "sslkey") p.ssl_key))
ssl_pairs-IsPair p a b c =
    All-append IsPair (if_set (codes "sslrootcert") p.ssl_root_cert) _
      (IsPair-if_set _ _ (IsPair-of (codes "sslrootcert") p.ssl_root_cert refl refl a))
      (All-append IsPair (if_set (codes "sslcert") p.ssl_cert) _
        (IsPair-if_set _ _ (IsPair-of (codes "sslcert") p.ssl_cert refl refl b))
        (IsPair-if_set _ _ (IsPair-of (codes "sslkey") p.ssl_key refl refl c)))

effective_ssl_mode-readable :
    (p : PostgresConfig) → readable p.ssl_mode ≡ true → readable (effective_ssl_mode p) ≡ true
unfolding effective_ssl_mode
effective_ssl_mode-readable p h =
    if_both (λ v. readable v ≡ true) (is_empty p.ssl_mode)
      (no_space-readable (codes "require") refl) h

dsn_pairs-IsPair :
    (p : PostgresConfig) (user : Text) (password : Option Text) (db : Text)
    → IsReadable p user password db
    → All IsPair (dsn_pairs p user password db)
unfolding dsn_pairs
dsn_pairs-IsPair p user password db h =
    let ssl = ssl_pairs-IsPair p h.ssl_root_cert h.ssl_cert h.ssl_key in
    let mode =
      IsPair-of (codes "sslmode") (effective_ssl_mode p) refl refl
        (effective_ssl_mode-readable p h.ssl_mode) in
    let database = IsPair-of (codes "dbname") db refl refl h.database in
    let rest =
      All-append IsPair (password_pair password) _ (password_pair-IsPair password h.secret)
        (database, (mode, ssl)) in
    let user_pair = IsPair-of (codes "user") user refl refl h.user_name in
    let port = IsPair-of (codes "port") (itoa p.port) refl refl (itoa-readable p.port) in
    (IsPair-of (codes "host") p.host refl refl h.host, (port, (user_pair, rest)))

conninfo-dsn_from :
    (p : PostgresConfig) (user : Text) (password : Option Text) (db : Text)
    → IsReadable p user password db
    → conninfo (dsn_from p user password db []) ≡ some (dsn_pairs p user password db)
unfolding dsn_from dsn_pairs
conninfo-dsn_from p user password db h =
    conninfo-write_pairs _ _ (dsn_pairs-IsPair p user password db h)

-- `application_name=syncctl`, which is written as text.
abbrev pub application_pair : Kv
application_pair = record { key = codes "application_name"; val = codes "syncctl" }

application_text : write_pairs (application_pair ∷ []) ≡ codes "application_name=syncctl"
unfolding write_pairs pair_text quote_value
application_text = refl

application-IsPair : All IsPair (application_pair ∷ [])
application-IsPair = (
  IsPair-of (codes "application_name") (codes "syncctl") refl refl
      (no_space-readable (codes "syncctl") refl),
  tt,
)

with_application :
    (ps : List Kv)
    → leb 1 (length ps) ≡ true
    → All IsPair ps
    → conninfo (write_pairs ps ++ 0x20 ∷ codes "application_name=syncctl")
      ≡ some (ps ++ application_pair ∷ [])
with_application [] set h = cc
with_application (p ∷ ps) set h =
    ap (λ x. conninfo (write_pairs (p ∷ ps) ++ 0x20 ∷ x)) (sym application_text)
    ∙ ap conninfo (sym (write_pairs-append p ps application_pair []))
    ∙ conninfo-write_pairs p (ps ++ application_pair ∷ [])
        (All-append IsPair (p ∷ ps) (application_pair ∷ []) h application-IsPair)

conninfo-dsn_from_application :
    (p : PostgresConfig) (user : Text) (password : Option Text) (db : Text)
    → IsReadable p user password db
    → conninfo (dsn_from p user password db (codes "application_name=syncctl"))
      ≡ some (dsn_pairs p user password db ++ application_pair ∷ [])
unfolding dsn_from dsn_pairs
conninfo-dsn_from_application p user password db h =
    with_application (dsn_pairs p user password db) (ground arith)
      (dsn_pairs-IsPair p user password db h)

-- libpq reads each connection string back as exactly the parameters that it was built from, if
-- every value needs quotes by the test of `quoteLibPQValue` or has none of C's blanks: `DSN` as the
-- control user's, `ReplicationDSN` as the replication user's with the application's name, and
-- `ReplicationConnInfo` as the same without the password.
pub conninfo-dsn :
    (p : PostgresConfig)
    → IsReadable p p.user (some p.password) p.db
    → IsReadable p p.replication_user (some p.replication_password) (codes "replication")
    → (conninfo (dsn p) ≡ some (dsn_pairs p p.user (some p.password) p.db))
      × (conninfo (replication_dsn p)
          ≡ some (
              dsn_pairs p p.replication_user (some p.replication_password) (codes "replication")
              ++ application_pair ∷ []))
      × (conninfo (replication_conn_info p).0
          ≡ some
              (dsn_pairs p p.replication_user none (codes "replication") ++ application_pair ∷ []))
unfolding dsn replication_dsn replication_conn_info build_dsn
conninfo-dsn p control h = (
  conninfo-dsn_from p p.user (some p.password) p.db control,
  conninfo-dsn_from_application p p.replication_user (some p.replication_password)
      (codes "replication") h,
  conninfo-dsn_from_application p p.replication_user none (codes "replication") (record {
    host = h.host;
    user_name = h.user_name;
    secret = unfold password_pair in tt;
    database = h.database;
    ssl_mode = h.ssl_mode;
    ssl_root_cert = h.ssl_root_cert;
    ssl_cert = h.ssl_cert;
    ssl_key = h.ssl_key;
  }),
)
