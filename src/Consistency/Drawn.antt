-- ===== src/Consistency/Drawn.antt =====
-- consistency/reconciler.go, `sampleGitFsck`: the sample is drawn without replacement.
use mathlib.Core.Path.{subst}
use mathlib.Core.List.{Perm}
use mathlib.Core.List.Perm
use syncctl.Base.{
  ℕ, zero, suc, ◌+◌, ◌-◌, ◌≤◌, ◌<◌, Bool, true, false, Option, none, some, List, [], ◌∷◌, ◌++◌, All,
  length, length-take, get_elem?, set, take, drop, take-append-drop, ◌≡◌, ◌≢◌, ◌↔◌, inl, inr, refl,
  sym, ltb, ◌∙◌, arith, Text, is_empty, Bool-cases,
}
use syncctl.Base.Int.{ℤ, pos, negsuc}
use syncctl.Consistency.Sample.{
  Tree, repos_in, swap, swap_found, draw, sample_size, count_broken, Share, sampled,
  sample_git_fsck, audit,
}
use syncctl.Consistency.{Row, row_count, tables_to_count, reconcile}
use syncctl.Consistency.Drift.{broken, Close, drifts_of_none, reconcile-counts}

module _ {ℓ} {A : Type ℓ} where
  -- A write trades one element for another.
  set-Perm :
      (xs : List A) (i : ℕ) (x v : A) → get_elem? xs i ≡ some x → Perm (x ∷ set xs i v) (v ∷ xs)
  set-Perm [] i x v h = cc
  set-Perm (y ∷ xs) zero x v h =
      let e : y ≡ x = cc in subst (λ z. Perm (z ∷ v ∷ xs) (v ∷ y ∷ xs)) e (Perm.swap v y xs)
  set-Perm (y ∷ xs) (suc i) x v h =
      Perm.trans (Perm.swap y x (set xs i v))
        (Perm.trans (Perm.cons y (set-Perm xs i x v h)) (Perm.swap v y xs))

  get_elem?-set :
      (xs : List A) (i j : ℕ) (x y : A)
      → get_elem? xs i ≡ some x
      → get_elem? xs j ≡ some y
      → get_elem? (set xs i y) j ≡ some y
  get_elem?-set [] i j x y h k = cc
  get_elem?-set (z ∷ xs) zero zero x y h k = refl
  get_elem?-set (z ∷ xs) zero (suc j) x y h k = k
  get_elem?-set (z ∷ xs) (suc i) zero x y h k = k
  get_elem?-set (z ∷ xs) (suc i) (suc j) x y h k = get_elem?-set xs i j x y h k

  swap_found-Perm :
      (xs : List A) (i j : ℕ) (o p : Option A)
      → get_elem? xs i ≡ o
      → get_elem? xs j ≡ p
      → Perm (swap_found xs i j o p) xs
  swap_found-Perm xs i j none p e e' = Perm.refl xs
  swap_found-Perm xs i j (some x) none e e' = Perm.refl xs
  swap_found-Perm xs i j (some x) (some y) e e' = Perm.cons_inv {a = y} (
      Perm.trans (set-Perm (set xs i y) j y x (get_elem?-set xs i j x y e e'))
        (set-Perm xs i x y e))

  swap-Perm : (xs : List A) (i j : ℕ) → Perm (swap xs i j) xs
  unfolding swap
  swap-Perm xs i j = swap_found-Perm xs i j (get_elem? xs i) (get_elem? xs j) refl refl

  -- Whatever the numbers, a draw only moves elements.
  draw-Perm : (rng : ℕ → ℕ → ℕ) (n i : ℕ) (xs : List A) → Perm (draw rng n i xs) xs
  unfolding draw
  draw-Perm rng zero i xs = Perm.refl xs
  draw-Perm rng (suc n) i xs =
      let ys = swap xs i (i + rng i (length xs - i)) in
      Perm.trans (draw-Perm rng n (suc i) ys) (swap-Perm xs i (i + rng i (length xs - i)))

  length-set : (xs : List A) (i : ℕ) (v : A) → length (set xs i v) ≡ length xs
  length-set [] i v = refl
  length-set (x ∷ xs) zero v = refl
  length-set (x ∷ xs) (suc i) v = omega (arith, length-set xs i v)

  length-swap_found :
      (xs : List A) (i j : ℕ) (o p : Option A) → length (swap_found xs i j o p) ≡ length xs
  length-swap_found xs i j none p = refl
  length-swap_found xs i j (some x) none = refl
  length-swap_found xs i j (some x) (some y) = length-set (set xs i y) j x ∙ length-set xs i y

  length-swap : (xs : List A) (i j : ℕ) → length (swap xs i j) ≡ length xs
  unfolding swap
  length-swap xs i j = length-swap_found xs i j (get_elem? xs i) (get_elem? xs j)

  length-draw : (rng : ℕ → ℕ → ℕ) (n i : ℕ) (xs : List A) → length (draw rng n i xs) ≡ length xs
  unfolding draw
  length-draw rng zero i xs = refl
  length-draw rng (suc n) i xs =
      let j = i + rng i (length xs - i) in
      length-draw rng n (suc i) (swap xs i j) ∙ length-swap xs i j

-- The size of a sample of `total` repositories: as many as the setting asks for, but one where it asks for
-- none, and all where it asks for more than there are.
pub data IsSize (total : ℕ) (n : ℕ) : ℤ → Type 0 where
  below_zero : {k : ℕ} → n ≡ 1 → IsSize total n (negsuc k)
  for_none : n ≡ 1 → IsSize total n (pos 0)
  as_asked : 0 < n → n ≤ total → IsSize total n (pos n)
  for_more : {k : ℕ} → total < k → n ≡ total → IsSize total n (pos k)

sample_size-IsSize : (total : ℕ) (part : ℤ) → 0 < total → IsSize total (sample_size total part) part
unfolding sample_size
sample_size-IsSize total (negsuc k) h = below_zero (ground arith)
sample_size-IsSize total (pos zero) h = for_none (ground arith)
sample_size-IsSize total (pos (suc k)) h = elim (Bool-cases (ltb total (suc k))) [
  | inl more ↦ for_more (ground arith) (ground arith)
  | inr fits ↦
      let same : sample_size total (pos (suc k)) ≡ suc k = ground arith in
      subst (λ n. IsSize total n (pos (suc k))) (sym same) (as_asked (omega arith) (ground arith))
]

IsSize-le : (total n : ℕ) (part : ℤ) → 0 < total → IsSize total n part → n ≤ total
IsSize-le total n (negsuc k) h (below_zero e) = omega arith
IsSize-le total n (pos zero) h (for_none e) = omega arith
IsSize-le total n part h (as_asked low high) = high
IsSize-le total n part h (for_more more e) = omega arith

-- The sample: it is the first part of a rearrangement of the repositories, of that size.
pub record IsSample (share : Share) (repos picked : List Text) : Type 0 where
  pub others : List Text
  pub drawn : Perm (picked ++ others) repos
  pub size : IsSize (length repos) (length picked) (share.part (length repos))

sampled-IsSample :
    (rng : ℕ → ℕ → ℕ) (share : Share) (repos : List Text)
    → 0 < length repos
    → IsSample share repos (sampled rng share repos)
unfolding sampled
sampled-IsSample rng share repos h =
    let part = share.part (length repos) in
    let n = sample_size (length repos) part in
    let ys = draw rng n 0 repos in
    let is = sample_size-IsSize (length repos) part h in
    let fits = IsSize-le (length repos) n part h is in
    let size : length (take n ys) ≡ n =
      length-take n ys (omega (arith, length-draw rng n 0 repos, fits)) in
    record {
      others = drop n ys;
      drawn = rw (take-append-drop n ys) (draw-Perm rng n 0 repos);
      size = subst (λ k. IsSize (length repos) k part) (sym size) is;
    }

-- No repository is broken only if each is sound.
count_broken-none :
    (sound : Text → Bool) (repos : List Text)
    → (count_broken sound repos ≡ 0) ↔ All (λ r. sound r ≡ true) repos
unfolding count_broken
count_broken-none sound [] = ((λ _. tt), λ _. refl)
count_broken-none sound (repo ∷ repos) =
    let (to, from) = count_broken-none sound repos in
    elim (Bool-cases (sound repo)) [
      | inl fine ↦ rw fine ((λ e. (refl, to (omega arith))), λ h. omega (arith, from h.1))
      | inr bad ↦ rw bad ((λ e. absurd (omega arith)), λ h. cc)
    ]

full-ne {ℓ} : {A : Type ℓ} (xs : List A) → xs ≢ [] → (is_empty xs ≡ false) × (0 < length xs)
full-ne [] h = absurd (h refl)
full-ne (x ∷ xs) h = (refl, omega arith)

sample_git_fsck-counts :
    (rng : ℕ → ℕ → ℕ) (sound : Text → Bool) (share : Share) (path : Text) (tree : Tree)
    → share.positive ≡ true
    → is_empty path ≡ false
    → is_empty (repos_in path tree) ≡ false
    → sample_git_fsck rng sound share path tree
      ≡ count_broken sound (sampled rng share (repos_in path tree))
unfolding sample_git_fsck
sample_git_fsck-counts rng sound share path tree positive named full = ground arith

module _ (primary secondary : Text → Row) (rng : ℕ → ℕ → ℕ) (sound : Text → Bool)
    (share : Share) where
  audit_lem :
      (path : Text) (tree : Tree)
      → audit primary secondary rng sound share path tree
        ≡ reconcile primary secondary path (sample_git_fsck rng sound share path tree)
  unfolding audit
  audit_lem path tree = refl

  -- With a share above zero and repositories below the path, the audit draws the sample without
  -- replacement, of the size that the share asks for but at least one and at most all. It is in sync
  -- exactly if for no table both sites have counts that differ by more than five and by more than a
  -- tenth of the larger, and every repository of the sample is sound.
  pub audit-IsSample :
      (path : Text) (tree : Tree)
      → share.positive ≡ true
      → path ≢ []
      → repos_in path tree ≢ []
      → (picked : List Text) × IsSample share (repos_in path tree) picked
        × (((audit primary secondary rng sound share path tree).in_sync ≡ true) ↔ (
            All (λ t. Close (row_count (primary t)) (row_count (secondary t))) tables_to_count
            × All (λ r. sound r ≡ true) picked))
  audit-IsSample path tree positive named full =
      let repos = repos_in path tree in
      let picked = sampled rng share repos in
      let (some_path, _) = full-ne path named in
      let (some_repos, many) = full-ne repos full in
      let failed = sample_git_fsck rng sound share path tree in
      let count = sample_git_fsck-counts rng sound share path tree positive some_path some_repos in
      let (verdict, _) = reconcile-counts primary secondary path failed in
      let tables = drifts_of_none primary secondary tables_to_count in
      let all_sound = count_broken-none sound picked in
      let checked : broken primary secondary path failed ≡ count_broken sound picked =
        rw some_path count in
      (
        picked,
        sampled-IsSample rng share repos many,
        rw (audit_lem path tree) (
          (λ h. (
            tables.0 (omega (arith, verdict.0 h)),
            all_sound.0 (omega (arith, verdict.0 h, checked)),
          )),
          (λ h. verdict.1 (omega (arith, tables.1 h.0, checked, all_sound.1 h.1))),
        ),
      )
