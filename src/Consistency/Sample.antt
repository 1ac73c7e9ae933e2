-- ===== src/Consistency/Sample.antt =====
-- consistency/reconciler.go, `sampleGitFsck`: the walk over the disk, the draw without replacement
-- and the count of the repositories that `git fsck` refuses.
use syncctl.Base.{
  ℕ, zero, suc, ◌+◌, ◌-◌, Bool, not, ◌||◌, Option, none, some, List, [], ◌∷◌, ◌++◌, length,
  get_elem?, set, take, ltb, Text, codes, is_empty, if◌then◌else◌,
}
use mathlib.Core.List.{reverse}
use syncctl.Base.Int.{ℤ, pos, negsuc}
use syncctl.Base.Strings.{has_prefix}
use syncctl.Base.FilePaths.{join_paths}
use syncctl.Consistency.{Row, Outcome, reconcile}

-- What `filepath.Walk` meets: a file, a directory with its entries in the order of their names, or one
-- that cannot be read. An error on the way is logged and passed over.
mutual
  pub data Tree : Type 0 where
    file unreadable : Tree
    dir : Entries → Tree

  pub data Entries : Type 0 where
    nil : Entries
    entry : Text → Tree → Entries → Entries

-- `filepath.Base(path) == ".git" || strings.HasSuffix(path, ".git")`, where the second covers the first
unfoldable pub is_repo : Text → Bool
unfolding has_prefix
is_repo path = has_prefix (reverse path) (codes "tig.")

-- The repositories of a tree; what lies below one is skipped.
unfoldable mutual
  unfolding is_repo join_paths

  pub repos_in : Text → Tree → List Text
  repos_in path file = []
  repos_in path unreadable = if is_repo path then path ∷ [] else []
  repos_in path (dir entries) = if is_repo path then path ∷ [] else repos_below path entries

  pub repos_below : Text → Entries → List Text
  repos_below path nil = []
  repos_below path (entry name tree rest) =
      repos_in (join_paths path name) tree ++ repos_below path rest

module _ {ℓ} {A : Type ℓ} where
  abbrev pub swap_found : List A → ℕ → ℕ → Option A → Option A → List A
  swap_found xs i j (some x) (some y) = set (set xs i y) j x
  swap_found xs i j none _ = xs
  swap_found xs i j (some x) none = xs

  -- `xs[i], xs[j] = xs[j], xs[i]`; the indices of the draw are in range.
  unfoldable pub swap : List A → ℕ → ℕ → List A
  swap xs i j = swap_found xs i j (get_elem? xs i) (get_elem? xs j)

  -- The loop of the draw: `rng` answers the call of a round with a number below the bound.
  unfoldable pub draw : (ℕ → ℕ → ℕ) → ℕ → ℕ → List A → List A
  unfolding swap
  draw rng zero i xs = xs
  draw rng (suc rounds) i xs = draw rng rounds (suc i) (swap xs i (i + rng i (length xs - i)))

-- The size of the sample, by the part of the repositories that the setting asks for.
unfoldable pub sample_size : ℕ → ℤ → ℕ
sample_size total (negsuc _) = if ltb total 1 then total else 1
sample_size total (pos n) =
    let least = if ltb n 1 then 1 else n in if ltb total least then total else least

-- The loop over the sample.
unfoldable pub count_broken : (Text → Bool) → List Text → ℕ
count_broken sound [] = 0
count_broken sound (repo ∷ repos) = (if sound repo then 0 else 1) + count_broken sound repos

-- The setting `consistency_sample_pct`: whether it is above zero, and `int(float64(n) * pct)`.
pub record Share : Type 0 where
  pub positive : Bool
  pub part : ℕ → ℤ

-- The repositories that are checked.
unfoldable pub sampled : (ℕ → ℕ → ℕ) → Share → List Text → List Text
unfolding draw sample_size
sampled rng share repos =
    let n = sample_size (length repos) (share.part (length repos)) in take n (draw rng n 0 repos)

-- `sampleGitFsck`, with the answer of `git fsck` for each repository
unfoldable pub sample_git_fsck : (ℕ → ℕ → ℕ) → (Text → Bool) → Share → Text → Tree → ℕ
unfolding sampled count_broken repos_in
sample_git_fsck rng sound share path tree =
    if not share.positive || is_empty path
    then 0
    else if is_empty (repos_in path tree)
    then 0
    else count_broken sound (sampled rng share (repos_in path tree))

-- `Reconcile`, with the sample that it draws itself.
unfoldable pub audit :
    (Text → Row) → (Text → Row) → (ℕ → ℕ → ℕ) → (Text → Bool) → Share → Text → Tree → Outcome
unfolding sample_git_fsck
audit primary secondary rng sound share path tree =
    reconcile primary secondary path (sample_git_fsck rng sound share path tree)
