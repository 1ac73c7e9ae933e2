-- ===== src/Tests/Consistency.antt =====
-- The theorems about the comparison of counts at two sites.
use syncctl.Base.{
  ℕ, ◌+◌, ◌-◌, ◌/◌, Bool, true, false, List, [], ◌∷◌, All, ◌≡◌, ◌↔◌, refl, sym, ◌∙◌, Text, codes,
  text_eq,
}
use syncctl.Base.Int.{pos}
use syncctl.Consistency.Drift.{Close, broken, drifts_of, errors_of, reconcile-counts}
use syncctl.Consistency.Sample.{Tree, dir, nil, entry, Share, repos_in, sample_git_fsck, audit}
use syncctl.Consistency.Drawn.{IsSample, audit-IsSample}
use syncctl.Consistency.{
  row_count, Row, is_approx_equal, query_failed, reconcile, tables_to_count, tuples,
}

approx :
    (is_approx_equal 100 110 ≡ true)
    × (is_approx_equal 100 112 ≡ false)
    × (is_approx_equal 0 5 ≡ true)
unfolding is_approx_equal
approx = (refl, refl, refl)

abbrev unreachable : Text → Row
unreachable table = query_failed (codes "timeout")

abbrev thousand : Text → Row
thousand table = tuples (pos 1000)

-- A sweep that cannot read one count is in sync.
unreachable_sweep :
    ((reconcile unreachable thousand [] 0).in_sync ≡ true)
    × ((reconcile unreachable thousand [] 0).remaining ≡ 10)
unfolding reconcile tables_to_count
unreachable_sweep = (refl, refl)

reconcile-counts_example :
    (((reconcile unreachable thousand (codes "/r") 2).in_sync ≡ true) ↔ (
      drifts_of unreachable thousand tables_to_count + broken unreachable thousand (codes "/r") 2
      ≡ 0))
    × ((reconcile unreachable thousand (codes "/r") 2).remaining
        ≡ drifts_of unreachable thousand tables_to_count
          + errors_of unreachable thousand tables_to_count)
reconcile-counts_example = reconcile-counts unreachable thousand (codes "/r") 2

-- Two repositories in a group, and one of them is broken.
abbrev on_disk : Tree
on_disk = dir (
    entry (codes "g") (dir (entry (codes "a.git") (dir nil) (entry (codes "b.git") (dir nil) nil)))
      nil)

abbrev half : Share
half = record { positive = true; part = λ n. pos (n / 2) }

abbrev last_one : ℕ → ℕ → ℕ
last_one i bound = bound - 1

abbrev sound : Text → Bool
sound path = text_eq path (codes "/r/g/a.git")

found : repos_in (codes "/r") on_disk ≡ codes "/r/g/a.git" ∷ codes "/r/g/b.git" ∷ []
unfolding repos_in
found = refl

audited : sample_git_fsck last_one sound half (codes "/r") on_disk ≡ 1
unfolding sample_git_fsck
audited = refl

audit-IsSample_example :
    (picked : List Text) × IsSample half (repos_in (codes "/r") on_disk) picked
    × (((audit thousand thousand last_one sound half (codes "/r") on_disk).in_sync ≡ true) ↔ (
        All (λ t. Close (row_count (thousand t)) (row_count (thousand t))) tables_to_count
        × All (λ r. sound r ≡ true) picked))
audit-IsSample_example =
    audit-IsSample thousand thousand last_one sound half (codes "/r") on_disk refl (λ e. cc)
      (λ e. let e' = sym found ∙ e in cc)
