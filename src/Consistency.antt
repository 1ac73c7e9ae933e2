-- ===== src/Consistency.antt =====
-- internal/reconciler/consistency/reconciler.go: the comparison of row counts in `Reconcile`. The
-- answers of the databases are given; the repositories are drawn in Consistency/Sample.
pub mod Drift
pub mod Sample
pub mod Drawn
use syncctl.Base.{
  ℕ, suc, ◌+◌, ◌-◌, ◌/◌, Bool, true, false, not, Option, List, [], ◌∷◌, ◌++◌, ltb, leb, ◌==◌, Text,
  codes, is_empty, if◌then◌else◌,
}
use syncctl.Base.Int.{ℤ, pos, negsuc}

-- What a query for `reltuples` gives: no row, a value, or another error.
pub data Row : Type 0 where
  no_row : Row
  tuples : ℤ → Row
  query_failed : Text → Row

-- The outcome of `rowCount`, with `errCountUnknown` apart from the other errors.
pub data Count : Type 0 where
  counted : ℕ → Count
  unknown : Count
  count_failed : Text → Count

unfoldable pub row_count : Row → Count
row_count no_row = counted 0
row_count (query_failed e) = count_failed e
row_count (tuples (pos n)) = counted n
row_count (tuples (negsuc n)) = unknown

-- `isApproxEqual`; counts are not negative, and the difference is taken the way that does not go
-- below zero.
unfoldable pub is_approx_equal : ℕ → ℕ → Bool
is_approx_equal a b =
    let diff = if ltb a b then b - a else a - b in
    let tenth = if ltb a b then b / 10 else a / 10 in
    let tolerance = if ltb tenth 5 then 5 else tenth in leb diff tolerance

pub data Detail : Type 0 where
  primary_error : Text → Text → Detail
  secondary_error : Text → Text → Detail
  drift : Text → ℕ → ℕ → Detail

-- The variables of the loop.
pub record Tally : Type 0 where
  pub drifts : ℕ
  pub unanalyzed : ℕ
  pub remaining : ℕ
  pub details : List Detail

-- A table that counts as an error or as drift.
abbrev noted : Detail → Tally → Tally
noted d t = record t { remaining = suc t.remaining; details = t.details ++ d ∷ [] }

unfoldable pub compare_counts : Text → ℕ → ℕ → Tally → Tally
unfolding is_approx_equal
compare_counts table p s t =
    if p == s
    then t
    else if is_approx_equal p s
    then t
    else noted (drift table p s) (record t { drifts = suc t.drifts })

unfoldable pub with_secondary : Text → ℕ → Count → Tally → Tally
unfolding compare_counts
with_secondary table p unknown t = record t { unanalyzed = suc t.unanalyzed }
with_secondary table p (count_failed e) t = noted (secondary_error table e) t
with_secondary table p (counted s) t = compare_counts table p s t

-- One round; the secondary is only asked if the primary has a count.
unfoldable pub compare_table : Text → Count → Count → Tally → Tally
unfolding with_secondary
compare_table table unknown s t = record t { unanalyzed = suc t.unanalyzed }
compare_table table (count_failed e) s t = noted (primary_error table e) t
compare_table table (counted p) s t = with_secondary table p s t

-- `tablesToCount`
unfoldable pub tables_to_count : List Text
tables_to_count =
    codes "projects"
    ∷ codes "namespaces"
    ∷ codes "users"
    ∷ codes "merge_requests"
    ∷ codes "issues"
    ∷ codes "notes"
    ∷ codes "ci_builds"
    ∷ codes "ci_pipelines"
    ∷ codes "labels"
    ∷ codes "milestones"
    ∷ []

-- `Result`, with the details as values and the count of tables without statistics.
pub record Outcome : Type 0 where
  pub in_sync : Bool
  pub remaining : ℕ
  pub details : List Detail
  pub unanalyzed : ℕ

abbrev pub no_tally : Tally
no_tally = record { drifts = 0; unanalyzed = 0; remaining = 0; details = [] }

module _ (primary secondary : Text → Row) where
  unfoldable pub compare_tables : List Text → Tally → Tally
  unfolding compare_table row_count
  compare_tables [] t = t
  compare_tables (table ∷ tables) t =
      compare_tables tables
        (compare_table table (row_count (primary table)) (row_count (secondary table)) t)

  abbrev finished : Text → ℕ → Tally → Outcome
  finished repos_path failed t = record {
    in_sync = t.drifts + (if is_empty repos_path then 0 else failed) == 0;
    remaining = t.remaining;
    details = t.details;
    unanalyzed = t.unanalyzed;
  }

  -- `Reconcile`, with the number of repositories that `sampleGitFsck` finds broken.
  unfoldable pub reconcile : Text → ℕ → Outcome
  unfolding compare_tables
  reconcile repos_path failed = finished repos_path failed (compare_tables tables_to_count no_tally)
