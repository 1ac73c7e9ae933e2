-- ===== src/Doctor/Database.antt =====
-- doctor/doctor.go: the checks of the databases. A query is answered by a function of the connection
-- string; a pool that is opened is closed when its check returns.
use syncctl.Base.{
  Bool, true, false, not, ◌||◌, none, some, [], ◌∷◌, ◌++◌, Text, codes, is_empty, text_eq,
  if◌then◌else◌,
}
use syncctl.Base.Strings.{strip_prefix}
use syncctl.Config.Types.{PostgresConfig}
use syncctl.Config.Dsn.{dsn}
use syncctl.Doctor.{Status, pass, fail, warn, Check}

-- The queries of the checks.
pub data Query : Type 0 where
  version wal_level max_wal_senders in_recovery : Query
  role_replication : Text → Query

-- The outcome of opening a pool and scanning one row, which is a text or a Boolean.
pub data Answer : Type 0 where
  connect_failed query_failed : Answer
  text_row : Text → Answer
  bool_row : Bool → Answer

abbrev pub Database : Type 0
Database = Text → Query → Answer

abbrev pg_check : Text → Text → Status → Text → Check
pg_check label kind status detail = record {
  name = codes "pg:" ++ (label ++ (b':' ∷ kind));
  category = codes "postgres";
  status = status;
  detail = detail;
}

-- What stands before " (" in a version, if there is something.
unfoldable pub short_of : Text → Text → Text
unfolding strip_prefix
short_of front [] = front
short_of front (c ∷ s) = elim (strip_prefix (c ∷ s) (codes " (")) [
  | some _ ↦ front
  | none ↦ short_of (front ++ c ∷ []) s
]

unfoldable pub short_version : Text → Text
unfolding short_of
short_version v = let short = short_of [] v in if is_empty short then v else short

unfoldable pub control_of : Text → Answer → Check
unfolding short_version
control_of label connect_failed = pg_check label (codes "control") fail (codes "connect")
control_of label query_failed = pg_check label (codes "control") fail (codes "query version")
control_of label (text_row v) = pg_check label (codes "control") pass (short_version v)
control_of label (bool_row b) = pg_check label (codes "control") fail (codes "query version")

-- `pgControlCheck`
unfoldable pub pg_control_check : Database → Text → PostgresConfig → Check
unfolding control_of
pg_control_check db label pg =
    if is_empty pg.host
    then pg_check label (codes "control") fail (codes "postgres.host not configured")
    else control_of label (db (dsn pg) version)

unfoldable pub role_of : Text → Text → Answer → Check
role_of label user (bool_row true) =
    pg_check label (codes "repl-role") pass (codes "role " ++ (user ++ codes " has REPLICATION"))
role_of label user (bool_row false) =
    pg_check label (codes "repl-role") fail
      (codes "role " ++ (user ++ codes " exists but lacks REPLICATION privilege"))
role_of label user connect_failed = pg_check label (codes "repl-role") fail (codes "connect")
role_of label user query_failed =
    pg_check label (codes "repl-role") fail (codes "role " ++ (user ++ codes " not found"))
role_of label user (text_row t) =
    pg_check label (codes "repl-role") fail (codes "role " ++ (user ++ codes " not found"))

-- `pgReplicationRoleCheck`
unfoldable pub pg_replication_role_check : Database → Text → PostgresConfig → Check
unfolding role_of
pg_replication_role_check db label pg =
    role_of label pg.replication_user (db (dsn pg) (role_replication pg.replication_user))

-- A level of the log that lets a standby follow.
unfoldable pub enough_wal : Text → Bool
unfolding text_eq
enough_wal level = text_eq level (codes "replica") || text_eq level (codes "logical")

unfoldable pub wal_level_of : Text → Answer → Check
unfolding enough_wal
wal_level_of label (text_row level) =
    if not (enough_wal level)
    then pg_check label (codes "wal_level") fail
        (codes "wal_level=" ++ (level ++ codes ", need replica or logical"))
    else pg_check label (codes "wal_level") pass (codes "wal_level=" ++ level)
wal_level_of label connect_failed = pg_check label (codes "wal_level") fail (codes "connect")
wal_level_of label query_failed = pg_check label (codes "wal_level") fail (codes "query")
wal_level_of label (bool_row b) = pg_check label (codes "wal_level") fail (codes "query")

-- `pgWalLevelCheck`
unfoldable pub pg_wal_level_check : Database → Text → PostgresConfig → Check
unfolding wal_level_of
pg_wal_level_check db label pg = wal_level_of label (db (dsn pg) wal_level)

unfoldable pub wal_senders_of : Text → Answer → Check
unfolding text_eq
wal_senders_of label (text_row n) =
    if text_eq n (codes "0")
    then pg_check label (codes "max_wal_senders") fail (codes "max_wal_senders=0, must be > 0")
    else pg_check label (codes "max_wal_senders") pass (codes "max_wal_senders=" ++ n)
wal_senders_of label connect_failed =
    pg_check label (codes "max_wal_senders") fail (codes "connect")
wal_senders_of label query_failed = pg_check label (codes "max_wal_senders") fail (codes "query")
wal_senders_of label (bool_row b) = pg_check label (codes "max_wal_senders") fail (codes "query")

-- `pgWalSendersCheck`
unfoldable pub pg_wal_senders_check : Database → Text → PostgresConfig → Check
unfolding wal_senders_of
pg_wal_senders_check db label pg = wal_senders_of label (db (dsn pg) max_wal_senders)

unfoldable pub in_recovery_of : Text → Answer → Check
in_recovery_of label (bool_row true) =
    pg_check label (codes "in_recovery") pass (codes "in recovery (standby)")
in_recovery_of label (bool_row false) =
    pg_check label (codes "in_recovery") warn
      (codes "secondary PG is NOT in recovery mode (run `syncctl pg setup` first)")
in_recovery_of label connect_failed =
    pg_check label (codes "in_recovery") warn (codes "connect (expected if not yet bootstrapped)")
in_recovery_of label query_failed =
    pg_check label (codes "in_recovery") warn (codes "query (expected if not yet bootstrapped)")
in_recovery_of label (text_row t) =
    pg_check label (codes "in_recovery") warn (codes "query (expected if not yet bootstrapped)")

-- `pgInRecoveryCheck`
unfoldable pub pg_in_recovery_check : Database → Text → PostgresConfig → Check
unfolding in_recovery_of
pg_in_recovery_check db label pg = in_recovery_of label (db (dsn pg) in_recovery)
