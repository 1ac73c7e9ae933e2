-- ===== src/Gitfetch/Sweep.antt =====
-- gitfetch/reconciler.go: what a sweep and the fetch of one project run, and what the sweep counts.
use syncctl.Base.{◌+◌, Bool, true, List, [], ◌++◌, All, ◌≡◌, ◌↔◌, ◌⊎◌, Text}
use syncctl.Base.Result.{Result}
use syncctl.Gitfetch.Resolve.{IsRooted, resolve}
use syncctl.Gitfetch.Fetch.{
  Fetcher, ProjectRow, GitCommand, GitWorld, fetch_args, Progress, FetchOutcome,
}
use syncctl.Gitfetch.Trace.{trues, falses, Fetched}

-- A fetch in a directory that lies at or below the root.
pub record IsFetch (root : Text) (c : GitCommand) : Type 0 where
  pub dir : Text
  pub url : Text
  pub below : List Text
  pub args : c.args ≡ fetch_args dir url
  pub inside : resolve dir ≡ resolve root ++ below

module _ (f : Fetcher) (rooted : IsRooted f.repos_path) where
  abbrev IsInside : GitCommand → Type 0
  IsInside = IsFetch f.repos_path

  -- The commands that a part of the run adds, each of them such a fetch.
  pub record Adds (log log' : List GitCommand) : Type 0 where
    pub commands : List GitCommand
    pub appended : log' ≡ log ++ commands
    pub each : All IsInside commands

  module _ (w : GitWorld) where
    -- What the loop leaves: the projects are fetched in their order, up to those that are left because
    -- the context is done, and their results are counted.
    record Counted (projects : List ProjectRow) (s s' : Progress) : Type 0 where
      adds : Adds s.log s'.log
      tried : List ProjectRow
      left : List ProjectRow
      results : List Bool
      in_order : projects ≡ tried ++ left
      trace : Fetched f w s.log tried results s'.log
      repaired : s'.repaired ≡ s.repaired + trues results
      failed_count : s'.failed ≡ s.failed + falses results
      stopped : (left ≡ []) ⊎ (w.cancelled s'.log ≡ true)

-- What a sweep over the listed projects runs, and its verdict on the results.
pub record Swept (f : Fetcher) (rooted : IsRooted f.repos_path) (w : GitWorld)
    (projects : List ProjectRow) (log : List GitCommand) (out : FetchOutcome × List GitCommand)
    : Type 0 where
  pub adds : Adds f rooted log out.1
  pub tried : List ProjectRow
  pub left : List ProjectRow
  pub results : List Bool
  pub in_order : projects ≡ tried ++ left
  pub trace : Fetched f w log tried results out.1
  pub repaired : out.0.repaired ≡ trues results
  pub remaining : out.0.remaining ≡ falses results
  pub stopped : (left ≡ []) ⊎ (w.cancelled out.1 ≡ true)
  pub in_sync : (out.0.in_sync ≡ true) ↔ All (λ r. r ≡ true) results
