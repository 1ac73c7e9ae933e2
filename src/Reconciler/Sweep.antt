-- ===== src/Reconciler/Sweep.antt =====
-- internal/reconciler/runner.go: the names of reconcilers, and one sweep over them.
use syncctl.Base.{
  Bool, true, List, [], ◌∷◌, ◌++◌, map, ◌≡◌, ◌≢◌, refl, ap, Text, codes, is_empty, if◌then◌else◌,
  Bool-cases, inl, inr,
}
use syncctl.Base.Int.{ℤ}
use syncctl.Config.Types.{Duration}

-- `Result`
pub record Finding : Type 0 where
  pub in_sync : Bool
  pub lag : Duration
  pub detail : Text
  pub repaired : ℤ
  pub remaining : ℤ

-- `QualifyName`
qualify_name : Text → Text → Text
qualify_name base site = if is_empty site then base else base ++ (codes "@" ++ site)

-- The interface of a reconciler, with the state of the outside that a run reads and changes.
pub record Reconciler (S : Type 0) : Type 0 where
  pub name : Text
  pub reconcile : S → Finding × S

module _ {S : Type 0} (cancelled : S → Bool) where
  -- The findings are what the log gets, with the names.
  abbrev then_keep : Text → Finding → List (Text × Finding) × S → List (Text × Finding) × S
  then_keep name f (rest, s) = ((name, f) ∷ rest, s)

  -- `sweep`
  unfoldable pub sweep : List (Reconciler S) → S → List (Text × Finding) × S
  sweep [] s = ([], s)
  sweep (r ∷ rs) s =
      let (f, t) = r.reconcile s in
      let ran = then_keep r.name f (sweep rs t) in if cancelled s then ([], s) else ran

  -- The reconcilers that ran are the first of the list, in its order; if some did not run, the
  -- context is cancelled.
  pub record Swept (rs : List (Reconciler S)) (out : List (Text × Finding) × S) : Type 0 where
    pub left : List (Reconciler S)
    pub in_order :
        map (λ (r : Reconciler S). r.name) rs
        ≡ map (λ (o : Text × Finding). o.0) out.0 ++ map (λ (r : Reconciler S). r.name) left
    pub stopped : left ≢ [] → cancelled out.1 ≡ true

  ran-Swept :
      (r : Reconciler S) (rs : List (Reconciler S)) (f : Finding) (out : List (Text × Finding) × S)
      → Swept rs out
      → Swept (r ∷ rs) (then_keep r.name f out)
  ran-Swept r rs f (findings, s) h = record {
    left = h.left;
    in_order = ap (λ x. r.name ∷ x) h.in_order;
    stopped = h.stopped;
  }

  -- Whatever the reconcilers find, a sweep runs them in their order and each once, until the context
  -- is cancelled.
  pub sweep-Swept : (rs : List (Reconciler S)) (s : S) → Swept rs (sweep rs s)
  unfolding sweep
  sweep-Swept [] s = record { left = []; in_order = refl; stopped = λ h. absurd (h refl) }
  sweep-Swept (r ∷ rs) s = elim (Bool-cases (cancelled s)) [
    | inl done ↦ rw done (record { left = r ∷ rs; in_order = refl; stopped = λ _. done })
    | inr going ↦ rw going (
        ran-Swept r rs (r.reconcile s).0 (sweep rs (r.reconcile s).1)
          (sweep-Swept rs (r.reconcile s).1))
  ]
