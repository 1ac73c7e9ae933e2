-- ===== src/Gitfetch/Trace.antt =====
-- gitfetch/reconciler.go: the fetches of a sweep one after the other, with their results.
use syncctl.Base.{
  ℕ, suc, Bool, true, false, List, [], ◌∷◌, ◌++◌, All, ◌≡◌, ◌↔◌, inl, inr, refl, arith, Bool-cases,
}
use syncctl.Base.Result.{Result, ok, err}
use syncctl.Gitfetch.Fetch.{
  Fetcher, ProjectRow, GitCommand, GitWorld, FetchError, fetch_command, fetch_one, run_git,
}

-- How many of the results are fetched, and how many are not.
abbrev pub trues : List Bool → ℕ
trues [] = 0
trues (true ∷ rs) = suc (trues rs)
trues (false ∷ rs) = trues rs

abbrev pub falses : List Bool → ℕ
falses [] = 0
falses (true ∷ rs) = falses rs
falses (false ∷ rs) = suc (falses rs)

pub falses_none : (rs : List Bool) → (falses rs ≡ 0) ↔ All (λ r. r ≡ true) rs
falses_none [] = ((λ e. tt), λ h. refl)
falses_none (true ∷ rs) = let (to, from) = falses_none rs in ((λ e. (refl, to e)), λ h. from h.1)
falses_none (false ∷ rs) = ((λ e. absurd (omega arith)), λ h. cc)

module _ (f : Fetcher) (w : GitWorld) where
  -- Projects that are fetched one after the other, each with whether it was fetched.
  pub data Fetched : List GitCommand → List ProjectRow → List Bool → List GitCommand → Type 0 where
    no_project : {log : List GitCommand} → Fetched log [] [] log
    -- no command can be built
    refused :
        {p : ProjectRow} {ps : List ProjectRow} {rs : List Bool} {log log' : List GitCommand}
        (e : FetchError)
        → fetch_command f p ≡ err e
        → Fetched log ps rs log'
        → Fetched log (p ∷ ps) (false ∷ rs) log'
    previewed :
        {p : ProjectRow} {ps : List ProjectRow} {rs : List Bool} {log log' : List GitCommand}
        (c : GitCommand)
        → fetch_command f p ≡ ok c
        → f.dry_run ≡ true
        → Fetched log ps rs log'
        → Fetched log (p ∷ ps) (true ∷ rs) log'
    succeeded :
        {p : ProjectRow} {ps : List ProjectRow} {rs : List Bool} {log log' : List GitCommand}
        (c : GitCommand)
        → fetch_command f p ≡ ok c
        → f.dry_run ≡ false
        → w.fails log c ≡ false
        → Fetched (log ++ c ∷ []) ps rs log'
        → Fetched log (p ∷ ps) (true ∷ rs) log'
    failed :
        {p : ProjectRow} {ps : List ProjectRow} {rs : List Bool} {log log' : List GitCommand}
        (c : GitCommand)
        → fetch_command f p ≡ ok c
        → f.dry_run ≡ false
        → w.fails log c ≡ true
        → Fetched (log ++ c ∷ []) ps rs log'
        → Fetched log (p ∷ ps) (false ∷ rs) log'

  -- One more fetch before others, by its result and the commands behind it.
  abbrev pub IsResult : ProjectRow → List GitCommand → Bool × List GitCommand → Type 0
  IsResult p log r =
      (ps : List ProjectRow) (rs : List Bool) (log' : List GitCommand)
      → Fetched r.1 ps rs log'
      → Fetched log (p ∷ ps) (r.0 ∷ rs) log'

  run_git-IsResult :
      (p : ProjectRow) (log : List GitCommand) (dry : Bool) (built : Result FetchError GitCommand)
      → f.dry_run ≡ dry
      → fetch_command f p ≡ built
      → IsResult p log (run_git w dry built log)
  run_git-IsResult p log dry (err e) d h = λ ps rs log' t. refused e h t
  run_git-IsResult p log true (ok c) d h = λ ps rs log' t. previewed c h d t
  run_git-IsResult p log false (ok c) d h = elim (Bool-cases (w.fails log c)) [
    | inl bad ↦ rw bad (λ ps rs log' t. failed c h d bad t)
    | inr fine ↦ rw fine (λ ps rs log' t. succeeded c h d fine t)
  ]

  pub fetch_one-IsResult :
      (p : ProjectRow) (log : List GitCommand) → IsResult p log (fetch_one f w p log)
  unfolding fetch_one
  fetch_one-IsResult p log = run_git-IsResult p log f.dry_run (fetch_command f p) refl refl
