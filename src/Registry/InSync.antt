-- ===== src/Registry/InSync.antt =====
-- registry/reconciler.go, `Reconcile`: what it means that two registries are in sync.
use syncctl.Base.{
  ℕ, Bool, true, false, List, [], ◌∷◌, All, length, ◌≡◌, ◌↔◌, inl, inr, refl, arith, Text, text_eq,
  text_eq_iff, Bool-cases,
}
use syncctl.Base.Result.{Result, ok, err}
use syncctl.Registry.Compare.{
  has, to_set, set_diff, tags_differ, drifting, judge_tags, judge_repos, reconcile_registry,
}
use syncctl.Registry.Sets.{
  SameSet, SameTags, SameSet-iff, SameSet-to_set, set_diff-none, tags_differ-false,
}

-- What holds of all elements of a list holds of one that is in it.
All-of-has {κ} : (P : Text → Type κ) (xs : List Text) (x : Text) → All P xs → has xs x ≡ true → P x
unfolding has
All-of-has P [] x h there = cc
All-of-has P (y ∷ ys) x h there = elim (Bool-cases (text_eq x y)) [
  | inl same ↦ rw ((text_eq_iff x y).0 same) h.0
  | inr other ↦ All-of-has P ys x h.1 (ground arith)
]

All-to_set {κ} : (P : Text → Type κ) (xs : List Text) → All P (to_set xs) ↔ All P xs
unfolding to_set
All-to_set P [] = ((λ h. h), λ h. h)
All-to_set P (x ∷ xs) =
    let (to, from) = All-to_set P xs in
    elim (Bool-cases (has (to_set xs) x)) [
      | inl there ↦ rw there ((λ h. (All-of-has P (to_set xs) x h there, to h)), λ h. from h.1)
      | inr new ↦ rw new ((λ h. (h.0, to h.1)), λ h. (h.0, from h.1))
    ]

module _ {E : Type 0} (primary_tags secondary_tags : Text → Result E (List Text)) where
  abbrev SameAt : Text → Type 0
  SameAt repo = SameTags (primary_tags repo) (secondary_tags repo)

  drifting-none :
      (repos : List Text) → (drifting primary_tags secondary_tags repos ≡ 0) ↔ All SameAt repos
  unfolding drifting
  drifting-none [] = ((λ _. tt), λ _. refl)
  drifting-none (repo ∷ repos) =
      let (to, from) = drifting-none repos in
      let (same, equal) = tags_differ-false (primary_tags repo) (secondary_tags repo) in
      elim (Bool-cases (tags_differ (primary_tags repo) (secondary_tags repo))) [
        | inl drift ↦ rw drift (
          (λ e. absurd (omega arith)),
          λ h.
              absurd
                (differ (tags_differ (primary_tags repo) (secondary_tags repo)) drift (equal h.0)),
        )
        | inr fine ↦ rw fine ((λ e. (same fine, to (omega arith))), λ h. omega (arith, from h.1))
      ]
    where
      differ : (b : Bool) → b ≡ true → b ≡ false → ⊥
      differ b t f = cc

  -- The same repositories, each with the same tags on both sites.
  pub record SameContents (p s : List Text) : Type 0 where
    pub repos : SameSet p s
    pub tags : All SameAt p

  pub Listed : Result E (List Text) → Result E (List Text) → Type 0
  Listed (ok p) (ok s) = SameContents p s
  Listed (ok p) (err e) = ⊥
  Listed (err e) s = ⊥

  judge_repos-in_sync :
      (missing extra : ℕ) (repos : List Text)
      → ((judge_repos primary_tags secondary_tags missing extra repos).in_sync ≡ true)
        ↔ ((missing ≡ 0) × (extra ≡ 0) × (drifting primary_tags secondary_tags repos ≡ 0))
  unfolding judge_tags
  judge_repos-in_sync missing extra repos = ground arith

  -- Two registries are in sync exactly if both list their repositories, these are the same, and for
  -- each of them both list the tags and these are the same; the order and repetitions do not matter.
  pub reconcile_registry_iff :
      (p s : Result E (List Text))
      → ((reconcile_registry primary_tags secondary_tags p s).in_sync ≡ true) ↔ Listed p s
  unfolding reconcile_registry Listed
  reconcile_registry_iff (err e) s = ((λ h. cc), λ h. absurd h)
  reconcile_registry_iff (ok p) (err e) = ((λ h. cc), λ h. absurd h)
  reconcile_registry_iff (ok p) (ok s) =
      let a = to_set p in
      let b = to_set s in
      let (to, from) = judge_repos-in_sync (length (set_diff a b)) (length (set_diff b a)) a in
      let (below, none_missing) = set_diff-none a b in
      let (above, none_extra) = set_diff-none b a in
      let (halves, same) = SameSet-iff a b in
      let (listed, sets) = SameSet-to_set p s in
      let (all_same, none_drifting) = drifting-none a in
      let (each, distinct) = All-to_set SameAt p in
      (
        (λ h.
            let (m, e, d) = to h in
            record { repos = listed (same (below m, above e)); tags = each (all_same d) }),
        (λ h.
            let (x, y) = halves (sets h.repos) in
            from (none_missing x, none_extra y, none_drifting (distinct h.tags))),
      )
