-- ===== src/Consistency/Drift.antt =====
-- consistency/reconciler.go: the sums behind `OK` and `Remaining`, and the tolerance.
use syncctl.Base.{
  All, [], ◌∷◌, refl, inl, inr, ltb, leb, Bool-cases, ℕ, ◌+◌, ◌/◌, ◌≤◌, Bool, true, not, List, [],
  ◌∷◌, ◌≡◌, ◌↔◌, ◌⊎◌, ==_iff, arith, Text, is_empty, if◌then◌else◌,
}
use syncctl.Consistency.{
  Row, Count, counted, unknown, count_failed, row_count, is_approx_equal, Tally, compare_counts,
  with_secondary, compare_table, compare_tables, tables_to_count, no_tally, reconcile,
}

-- Two counts that are not close: they differ by more than five and by more than a tenth of the larger.
abbrev differs : ℕ → ℕ → Bool
differs a b = not (is_approx_equal a b)

-- Whether two counts are close does not depend on which site is the primary, and it is that they
-- differ by at most five, or by at most a tenth of the larger, rounded down.
pub is_approx_equal_iff :
    (a b d : ℕ)
    → b ≡ a + d
    → (is_approx_equal a b ≡ is_approx_equal b a)
      × ((is_approx_equal a b ≡ true) ↔ ((d ≤ 5) ⊎ (d ≤ b / 10)))
unfolding is_approx_equal
is_approx_equal_iff a b d h = (ground arith, ground arith)

-- What a table adds to the counters.
abbrev drifted : Count → Count → ℕ
drifted (counted p) (counted s) = if differs p s then 1 else 0
drifted _ _ = 0

abbrev erred : Count → Count → ℕ
erred (count_failed e) s = 1
erred (counted p) (count_failed e) = 1
erred _ _ = 0

is_approx_equal_refl : (a : ℕ) → is_approx_equal a a ≡ true
unfolding is_approx_equal
is_approx_equal_refl a = ground arith

compare_counts-drifts :
    (table : Text) (p s : ℕ) (t : Tally)
    → ((compare_counts table p s t).drifts ≡ t.drifts + drifted (counted p) (counted s))
      × ((compare_counts table p s t).remaining ≡ t.remaining + drifted (counted p) (counted s))
unfolding compare_counts
compare_counts-drifts table p s t = ground (arith, is_approx_equal_refl p)

compare_table-counts :
    (table : Text) (p s : Count) (t : Tally)
    → ((compare_table table p s t).drifts ≡ t.drifts + drifted p s)
      × ((compare_table table p s t).remaining ≡ t.remaining + (drifted p s + erred p s))
unfolding compare_table with_secondary
compare_table-counts table unknown s t = (omega arith, omega arith)
compare_table-counts table (count_failed e) s t = (omega arith, omega arith)
compare_table-counts table (counted p) unknown t = (omega arith, omega arith)
compare_table-counts table (counted p) (count_failed e) t = (omega arith, omega arith)
compare_table-counts table (counted p) (counted s) t =
    let (a, b) = compare_counts-drifts table p s t in (a, omega arith)

module _ (primary secondary : Text → Row) where
  -- The sums over the tables.
  pub drifts_of : List Text → ℕ
  drifts_of [] = 0
  drifts_of (table ∷ tables) =
      drifted (row_count (primary table)) (row_count (secondary table)) + drifts_of tables

  pub errors_of : List Text → ℕ
  errors_of [] = 0
  errors_of (table ∷ tables) =
      erred (row_count (primary table)) (row_count (secondary table)) + errors_of tables

  compare_tables-counts :
      (tables : List Text) (t : Tally)
      → ((compare_tables primary secondary tables t).drifts ≡ t.drifts + drifts_of tables)
        × ((compare_tables primary secondary tables t).remaining
            ≡ t.remaining + (drifts_of tables + errors_of tables))
  unfolding compare_tables drifts_of errors_of
  compare_tables-counts [] t = (omega arith, omega arith)
  compare_tables-counts (table ∷ tables) t =
      let p = row_count (primary table) in
      let s = row_count (secondary table) in
      let (a, b) = compare_table-counts table p s t in
      let (c, d) = compare_tables-counts tables (compare_table table p s t) in
      (omega arith, omega arith)

  -- The repositories that count: none without a path.
  abbrev pub broken : Text → ℕ → ℕ
  broken repos_path failed = if is_empty repos_path then 0 else failed

  -- A sweep is in sync exactly if no table has two counts that are not close and no repository of
  -- the sample is broken; what remains counts these tables and those whose counts could not be
  -- read, which hence do not keep a sweep from being in sync.
  pub reconcile-counts :
      (repos_path : Text) (failed : ℕ)
      → (((reconcile primary secondary repos_path failed).in_sync ≡ true)
          ↔ (drifts_of tables_to_count + broken repos_path failed ≡ 0))
        × ((reconcile primary secondary repos_path failed).remaining
            ≡ drifts_of tables_to_count + errors_of tables_to_count)
  unfolding reconcile
  reconcile-counts repos_path failed =
      let (a, b) = compare_tables-counts tables_to_count no_tally in
      let none_before : (compare_tables primary secondary tables_to_count no_tally).drifts
          ≡ drifts_of tables_to_count =
        omega arith in
      (
        rw none_before (==_iff (drifts_of tables_to_count + broken repos_path failed) 0),
        omega arith,
      )

-- Two counts that differ by at most five, or by at most a tenth of the larger, rounded down.
pub data Tolerable (p s : ℕ) : Type 0 where
  few : p ≤ s + 5 → s ≤ p + 5 → Tolerable p s
  more_there : p ≤ s → s ≤ p + s / 10 → Tolerable p s
  more_here : s ≤ p → p ≤ s + p / 10 → Tolerable p s

approx-Tolerable : (p s : ℕ) → is_approx_equal p s ≡ true → Tolerable p s
unfolding is_approx_equal
approx-Tolerable p s h = elim (Bool-cases (ltb p s)) [
  | inl less ↦ elim (Bool-cases (leb s (p + 5))) [
    | inl close ↦ few (ground arith) (ground arith)
    | inr far ↦ more_there (ground arith) (ground arith)
  ]
  | inr more ↦ elim (Bool-cases (leb p (s + 5))) [
    | inl close ↦ few (ground arith) (ground arith)
    | inr far ↦ more_here (ground arith) (ground arith)
  ]
]

Tolerable-approx : (p s : ℕ) → Tolerable p s → is_approx_equal p s ≡ true
unfolding is_approx_equal
Tolerable-approx p s (few a b) = ground (arith, a, b)
Tolerable-approx p s (more_there a b) = ground (arith, a, b)
Tolerable-approx p s (more_here a b) = ground (arith, a, b)

-- Where both sites have a count, the two are tolerable.
abbrev pub Close : Count → Count → Type 0
Close (counted p) (counted s) = Tolerable p s
Close _ _ = Unit

drifted_none : (p s : Count) → (drifted p s ≡ 0) ↔ Close p s
drifted_none (counted p) (counted s) = elim (Bool-cases (is_approx_equal p s)) [
  | inl same ↦ rw same ((λ e. approx-Tolerable p s same), λ h. refl)
  | inr apart ↦ rw apart ((λ e. absurd (omega arith)), λ h. let same = Tolerable-approx p s h in cc)
]
drifted_none (counted p) unknown = ((λ e. tt), λ h. refl)
drifted_none (counted p) (count_failed e) = ((λ e'. tt), λ h. refl)
drifted_none unknown s = ((λ e. tt), λ h. refl)
drifted_none (count_failed e) s = ((λ e'. tt), λ h. refl)

-- No table drifts exactly if the counts of each are close.
pub drifts_of_none :
    (primary secondary : Text → Row) (tables : List Text)
    → (drifts_of primary secondary tables ≡ 0)
      ↔ All (λ t. Close (row_count (primary t)) (row_count (secondary t))) tables
unfolding drifts_of
drifts_of_none primary secondary [] = ((λ e. tt), λ h. refl)
drifts_of_none primary secondary (t ∷ tables) =
    let (to, from) = drifted_none (row_count (primary t)) (row_count (secondary t)) in
    let (tos, froms) = drifts_of_none primary secondary tables in
    ((λ e. (to (omega arith), tos (omega arith))), λ h. omega (arith, from h.0, froms h.1))
