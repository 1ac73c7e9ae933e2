-- ===== src/Postgres/Lag.antt =====
-- postgres/reconciler.go: `checkSecondary` and `Reconcile`. The answers of the databases are given, the
-- lag in nanoseconds as `time.Duration` of the number that the primary shows.
use syncctl.Base.{ℕ, suc, Bool, true, false, List, [], ◌∷◌, ◌++◌, if◌then◌else◌, Text}
use syncctl.Base.Int.{pos, ltb_ℤ}
use syncctl.Config.Types.{Duration}

-- What `pg_is_in_recovery` gives on the secondary.
pub data Recovery : Type 0 where
  no_recovery_answer : Recovery
  recovering : Bool → Recovery

-- The replication row of the primary for a name.
pub data LagRow : Type 0 where
  no_lag_row : LagRow
  lag_of : Duration → LagRow

-- `checkSecondary`
pub data Standing : Type 0 where
  recovery_failed not_in_recovery no_replication_row : Standing
  lagging : Duration → Standing

abbrev by_row : LagRow → Standing
by_row no_lag_row = no_replication_row
by_row (lag_of d) = lagging d

unfoldable pub check_secondary : Recovery → LagRow → Standing
check_secondary no_recovery_answer row = recovery_failed
check_secondary (recovering false) row = not_in_recovery
check_secondary (recovering true) row = by_row row

pub data LagDetail : Type 0 where
  lag_error : Text → LagDetail
  lag_note : Text → Duration → LagDetail

-- `Result`, with the details as values
pub record LagReport : Type 0 where
  pub in_sync : Bool
  pub lag : Duration
  pub remaining : ℕ
  pub details : List LagDetail

abbrev max_lag : Duration → Duration → Duration
max_lag a b = if ltb_ℤ a b then b else a

-- A round of the loop.
unfoldable pub note_standing : Text → Standing → LagReport → LagReport
note_standing name (lagging d) r =
    if ltb_ℤ (pos 0) d
    then record r { lag = max_lag r.lag d; details = r.details ++ lag_note name d ∷ [] }
    else r
note_standing name recovery_failed r = record r {
  in_sync = false;
  remaining = suc r.remaining;
  details = r.details ++ lag_error name ∷ [];
}
note_standing name not_in_recovery r = record r {
  in_sync = false;
  remaining = suc r.remaining;
  details = r.details ++ lag_error name ∷ [];
}
note_standing name no_replication_row r = record r {
  in_sync = false;
  remaining = suc r.remaining;
  details = r.details ++ lag_error name ∷ [];
}

module _ (recovery : Text → Recovery) (rows : Text → LagRow) where
  unfoldable pub check_all : List Text → LagReport → LagReport
  unfolding check_secondary note_standing
  check_all [] r = r
  check_all (name ∷ names) r =
      check_all names (note_standing name (check_secondary (recovery name) (rows name)) r)

  -- `Reconcile`, over the names of the secondaries
  unfoldable pub reconcile_lag : List Text → LagReport
  unfolding check_all
  reconcile_lag names =
      check_all names (record { in_sync = true; lag = pos 0; remaining = 0; details = [] })
