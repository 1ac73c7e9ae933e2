-- ===== src/Rsync/Mirrored.antt =====
-- fsstorage/reconciler.go, `Reconcile`: which paths are copied, and the verdict on them.
use syncctl.Base.{
  ℕ, ◌+◌, Bool, true, false, List, [], ◌∷◌, ◌++◌, length, ltb, ◌≡◌, ◌↔◌, ◌⊎◌, inl, inr, refl, ap,
  ◌∙◌, arith, Bool-cases,
}
use syncctl.Base.Result.{Result, ok, err}
use syncctl.Ssh.{HostError}
use syncctl.Rsync.{Args, RsyncWorld}
use syncctl.Rsync.Paths.{
  PathPair, FsStorage, PathResult, copied, missing, path_failed, FsProgress, noted, FsOutcome,
  fs_outcome, judge_run, path_args, run_path, rsync_path, copy_paths, reconcile_pairs,
  reconcile_paths,
}

abbrev is_copied : PathResult → ℕ
is_copied copied = 1
is_copied missing = 0
is_copied path_failed = 0

abbrev is_missing : PathResult → ℕ
is_missing copied = 0
is_missing missing = 1
is_missing path_failed = 0

abbrev is_failed : PathResult → ℕ
is_failed copied = 0
is_failed missing = 0
is_failed path_failed = 1

-- How many of the results count.
abbrev pub total_of : (PathResult → ℕ) → List PathResult → ℕ
total_of f [] = 0
total_of f (r ∷ rs) = f r + total_of f rs

noted-counts :
    (x : PathResult) (log : List Args) (s : FsProgress)
    → ((noted (x, log) s).repaired ≡ s.repaired + is_copied x)
      × ((noted (x, log) s).skipped ≡ s.skipped + is_missing x)
      × ((noted (x, log) s).failed ≡ s.failed + is_failed x)
      × ((noted (x, log) s).log ≡ log)
noted-counts copied log s = (omega arith, omega arith, omega arith, refl)
noted-counts missing log s = (omega arith, omega arith, omega arith, refl)
noted-counts path_failed log s = (omega arith, omega arith, omega arith, refl)

module _ (r : FsStorage) (w : RsyncWorld) where
  -- Paths that are tried one after the other, with their results.
  pub data Tried : List Args → List PathPair → List PathResult → List Args → Type 0 where
    none_left : {log : List Args} → Tried log [] [] log
    -- without a host that can be parsed nothing is run
    unreached :
        {p : PathPair} {ps : List PathPair} {rs : List PathResult} {log log' : List Args}
        (e : HostError)
        → path_args r p ≡ err e
        → Tried log ps rs log'
        → Tried log (p ∷ ps) (path_failed ∷ rs) log'
    ran :
        {p : PathPair} {ps : List PathPair} {rs : List PathResult} {log log' : List Args}
        (args : Args)
        → path_args r p ≡ ok args
        → Tried (log ++ args ∷ []) ps rs log'
        → Tried log (p ∷ ps) (judge_run (w.fails log args) ∷ rs) log'

  -- What the loop leaves.
  record Copied (ps : List PathPair) (s : FsProgress) (out : Bool × FsProgress) : Type 0 where
    tried : List PathPair
    left : List PathPair
    results : List PathResult
    in_order : ps ≡ tried ++ left
    trace : Tried s.log tried results out.1.log
    repaired : out.1.repaired ≡ s.repaired + total_of is_copied results
    skipped : out.1.skipped ≡ s.skipped + total_of is_missing results
    failed : out.1.failed ≡ s.failed + total_of is_failed results
    stopped : ((out.0 ≡ false) × (left ≡ [])) ⊎ ((out.0 ≡ true) × (w.cancelled out.1.log ≡ true))

  -- One more path before a loop, by its result and the runs behind it.
  Copied-next :
      (p : PathPair) (ps : List PathPair) (s : FsProgress) (x : PathResult) (log : List Args)
      (out : Bool × FsProgress)
      → ((tried : List PathPair) (results : List PathResult) (log' : List Args)
          → Tried log tried results log'
          → Tried s.log (p ∷ tried) (x ∷ results) log')
      → Copied ps (noted (x, log) s) out
      → Copied (p ∷ ps) s out
  Copied-next p ps s x log out first c =
      let (repaired, skipped, failed, same) = noted-counts x log s in
      record {
        tried = p ∷ c.tried;
        left = c.left;
        results = x ∷ c.results;
        in_order = ap (λ l. p ∷ l) c.in_order;
        trace = first _ _ _ (rw same at c.trace);
        repaired = omega (arith, c.repaired, repaired);
        skipped = omega (arith, c.skipped, skipped);
        failed = omega (arith, c.failed, failed);
        stopped = c.stopped;
      }

  run_path-Copied :
      (p : PathPair) (ps : List PathPair) (s : FsProgress) (step : Result HostError Args)
      (out : Bool × FsProgress)
      → path_args r p ≡ step
      → Copied ps (noted (run_path r w step s.log) s) out
      → Copied (p ∷ ps) s out
  run_path-Copied p ps s (err e) out h c =
      Copied-next p ps s path_failed s.log out (λ _ _ _. unreached e h) c
  run_path-Copied p ps s (ok args) out h c =
      Copied-next p ps s (judge_run (w.fails s.log args)) (s.log ++ args ∷ []) out
        (λ _ _ _. ran args h) c

  copy_paths-Copied : (ps : List PathPair) (s : FsProgress) → Copied ps s (copy_paths r w ps s)
  unfolding copy_paths rsync_path
  copy_paths-Copied [] s = record {
    tried = [];
    left = [];
    results = [];
    in_order = refl;
    trace = none_left;
    repaired = omega arith;
    skipped = omega arith;
    failed = omega arith;
    stopped = inl (refl, refl);
  }
  copy_paths-Copied (p ∷ ps) s = elim (Bool-cases (w.cancelled s.log)) [
    | inl done ↦ rw done (record {
      tried = [];
      left = p ∷ ps;
      results = [];
      in_order = refl;
      trace = none_left;
      repaired = omega arith;
      skipped = omega arith;
      failed = omega arith;
      stopped = inr (refl, done);
    })
    | inr going ↦ rw going (run_path-Copied p ps s (path_args r p) _ refl (copy_paths-Copied ps _))
  ]

-- The verdict on the results of all paths, or of those before the context was done.
pub data Verdict (w : RsyncWorld) (pairs : List PathPair) (results : List PathResult)
    (out : FsOutcome × List Args) (left : List PathPair) : Type 0 where
  complete :
      left ≡ []
      → out.0.repaired ≡ total_of is_copied results
      → out.0.remaining ≡ total_of is_failed results
      → (out.0.in_sync ≡ true) ↔ (total_of is_failed results ≡ 0)
      → Verdict w pairs results out left
  interrupted :
      w.cancelled out.1 ≡ true
      → out.0.in_sync ≡ false
      → out.0.repaired ≡ 0
      → out.0.remaining ≡ length pairs
      → Verdict w pairs results out left

pub record Mirrored (r : FsStorage) (w : RsyncWorld) (log : List Args) (out : FsOutcome × List Args)
    : Type 0 where
  pub tried : List PathPair
  pub left : List PathPair
  pub results : List PathResult
  pub in_order : r.path_pairs ≡ tried ++ left
  pub trace : Tried r w log tried results out.1
  pub verdict : Verdict w r.path_pairs results out left

fs_outcome-Verdict :
    (w : RsyncWorld) (pairs left : List PathPair) (results : List PathResult) (b : Bool)
    (s : FsProgress)
    → s.repaired ≡ total_of is_copied results
    → s.failed ≡ total_of is_failed results
    → ((b ≡ false) × (left ≡ [])) ⊎ ((b ≡ true) × (w.cancelled s.log ≡ true))
    → Verdict w pairs results (fs_outcome (length pairs) (b, s), s.log) left
unfolding fs_outcome
fs_outcome-Verdict w pairs left results true s rep fail (inl (e, _)) = cc
fs_outcome-Verdict w pairs left results false s rep fail (inr (e, _)) = cc
fs_outcome-Verdict w pairs left results true s rep fail (inr (_, done)) =
    interrupted done refl refl refl
fs_outcome-Verdict w pairs left results false s rep fail (inl (_, e)) =
    elim (Bool-cases (ltb 0 s.failed)) [
      | inl some' ↦ rw some' (complete e rep fail ((λ h. cc), λ h. absurd (ground arith)))
      | inr none' ↦ rw none' (complete e rep (ground arith) ((λ h. ground arith), λ h. refl))
    ]

copy_paths-Mirrored :
    (r : FsStorage) (w : RsyncWorld) (log : List Args) (ps : List PathPair)
    (loop : Bool × FsProgress)
    → r.path_pairs ≡ ps
    → Copied r w ps (record { repaired = 0; skipped = 0; failed = 0; log = log }) loop
    → Mirrored r w log (fs_outcome (length ps) loop, loop.1.log)
copy_paths-Mirrored r w log ps loop e c = record {
  tried = c.tried;
  left = c.left;
  results = c.results;
  in_order = e ∙ c.in_order;
  trace = c.trace;
  verdict = rw e (
      fs_outcome-Verdict w ps c.left c.results loop.0 loop.1 (omega (arith, c.repaired))
        (omega (arith, c.failed)) c.stopped);
}

-- A sweep without paths is one whose loop is over at once.
reconcile_pairs-loop :
    (r : FsStorage) (w : RsyncWorld) (log : List Args) (ps : List PathPair)
    → r.path_pairs ≡ ps
    → Mirrored r w log (reconcile_pairs r w ps log)
unfolding reconcile_pairs
reconcile_pairs-loop r w log [] e = record {
  tried = [];
  left = [];
  results = [];
  in_order = e;
  trace = none_left;
  verdict = complete refl refl refl ((λ h. refl), λ h. refl);
}
reconcile_pairs-loop r w log (p ∷ ps) e =
    copy_paths-Mirrored r w log (p ∷ ps) _ e (copy_paths-Copied r w (p ∷ ps) _)

-- The path pairs are tried in their order, each with the run that its arguments ask for. If the context
-- is not done in between, all are tried, the counters count their results, and the sweep is in
-- sync exactly if none failed; otherwise it is not in sync, and all paths remain.
pub reconcile_paths-Mirrored :
    (r : FsStorage) (w : RsyncWorld) (log : List Args) → Mirrored r w log (reconcile_paths r w log)
unfolding reconcile_paths
reconcile_paths-Mirrored r w log = reconcile_pairs-loop r w log r.path_pairs refl
