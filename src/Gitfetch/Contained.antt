-- ===== src/Gitfetch/Contained.antt =====
-- gitfetch/reconciler.go, `containedJoin`: the path it returns stays below the root.
use mathlib.Core.Path.{subst}
use mathlib.Core.List.{append_assoc, append-nil}
use syncctl.Base.{
  ℕ, true, ◌&&◌, not, List, [], ◌∷◌, ◌++◌, All, ◌≡◌, ◌≢◌, ◌⊎◌, refl, sym, ap, ◌∙◌, arith, Text,
  codes, text_eq, text_eq_iff, text_eq_refl, Bool-cases, inl, inr,
}
use syncctl.Base.Result.{ok, ok-injective, guard-eq-ok}
use syncctl.Base.Strings.{has_prefix, split, join}
use syncctl.Base.FilePaths.{rendered, clean, join_paths}
use syncctl.Gitfetch.Paths.{check_contained, contained_join}
use syncctl.Gitfetch.Segments.{
  split-append, IsName, split-join, join-append, has_prefix-split, has_prefix-append,
}
use syncctl.Gitfetch.Resolve.{
  IsRooted, resolve, resolve_from, resolve-IsName, resolve_from-IsName, resolve-rendered,
  clean-rooted, join_paths-rooted,
}

split-rendered :
    (name : Text) (names : List Text)
    → All IsName (name ∷ names)
    → split (rendered true (name ∷ names)) b'/' ≡ [] ∷ (name ∷ names)
unfolding rendered
split-rendered name names h =
    split-append [] (join (name ∷ names) (codes "/")) b'/'
    ∙ rw (split-join name names h) (unfold split in refl)

one_byte : (s t : Text) (c d : ℕ) → c ∷ [] ≢ c ∷ (s ++ (d ∷ t))
one_byte [] t c d e = cc
one_byte (a ∷ s) t c d e = cc

rendered_prefix :
    (names root : List Text) (t : Text)
    → All IsName names
    → All IsName root
    → rendered true names ≡ rendered true root ++ (b'/' ∷ t)
    → (below : List Text) × (names ≡ root ++ below)
rendered_prefix [] root t hn hr e =
    absurd (one_byte (join root (codes "/")) t b'/' b'/' (unfold rendered in e))
rendered_prefix (name ∷ names) [] t (h, hn) hr e =
    let parts : [] ∷ (name ∷ names) ≡ [] ∷ ([] ∷ split t b'/') =
      sym (split-rendered name names (h, hn))
      ∙ ap (λ s. split s b'/') e
      ∙ (unfold rendered join split in refl) in
    let nameless : name ≡ [] = cc in absurd (h.segment.not_empty nameless)
rendered_prefix (name ∷ names) (r ∷ root) t hn hr e =
    let parts : [] ∷ (name ∷ names) ≡ ([] ∷ (r ∷ root)) ++ split t b'/' =
      sym (split-rendered name names hn)
      ∙ ap (λ s. split s b'/') e
      ∙ split-append (rendered true (r ∷ root)) t b'/'
      ∙ ap (λ ws. ws ++ split t b'/') (split-rendered r root hr) in
    (split t b'/', cc)

contained_join_lem :
    (root rel : Text)
    → contained_join root rel ≡ check_contained rel (join_paths root rel) (clean root)
unfolding contained_join
contained_join_lem root rel = refl

rendered-append :
    (names : List Text) (next : Text) (below : List Text)
    → names ≢ []
    → rendered true (names ++ (next ∷ below))
      ≡ rendered true names ++ (b'/' ∷ join (next ∷ below) (codes "/"))
unfolding rendered
rendered-append [] next below h = absurd (h refl)
rendered-append (name ∷ names) next below h = ap (λ s. b'/' ∷ s) (join-append name names next below)

-- The path that is returned leads from the root to where the relative path leads, which is the root
-- or lies below it, and is spelled by its names.
pub record IsBelow (root rel joined : Text) : Type 0 where
  pub below : List Text
  pub leads : resolve_from root rel ≡ resolve root ++ below
  pub resolved : resolve joined ≡ resolve root ++ below
  pub cleaned : joined ≡ rendered true (resolve root ++ below)

joined-IsBelow :
    (root rel : Text) (below : List Text)
    → resolve_from root rel ≡ resolve root ++ below
    → IsBelow root rel (rendered true (resolve_from root rel))
joined-IsBelow root rel below e = record {
  below = below;
  leads = e;
  resolved = resolve-rendered (resolve_from root rel) (resolve_from-IsName root rel) ∙ e;
  cleaned = ap (rendered true) e;
}

checked-cases :
    (rel joined clean_root : Text) {out : Text}
    → check_contained rel joined clean_root ≡ ok out
    → (joined ≡ out) × ((joined ≡ clean_root) ⊎ ((t : Text) × (joined ≡ clean_root ++ (b'/' ∷ t))))
unfolding check_contained
checked-cases rel joined clean_root ran =
    let (test, e) =
      guard-eq-ok
        (not (text_eq joined clean_root) && not (has_prefix joined (clean_root ++ codes "/"))) _
        ran in
    (
      ok-injective e,
      elim (Bool-cases (text_eq joined clean_root)) [
        | inl same ↦ inl ((text_eq_iff joined clean_root).0 same)
        | inr other ↦
            let (t, e') = has_prefix-split joined (clean_root ++ codes "/") (ground arith) in
            inr (t, e' ∙ append_assoc clean_root (codes "/") t)
      ],
    )

contained_join-rooted :
    (root rel : Text)
    → IsRooted root
    → contained_join root rel
      ≡ check_contained rel (rendered true (resolve_from root rel)) (rendered true (resolve root))
contained_join-rooted root rel h =
    contained_join_lem root rel ∙ rw (join_paths-rooted root rel h, clean-rooted root h) refl

rendered-injective :
    (names root : List Text)
    → All IsName names
    → All IsName root
    → rendered true names ≡ rendered true root
    → names ≡ root
rendered-injective names root hn hr e =
    sym (resolve-rendered names hn) ∙ ap resolve e ∙ resolve-rendered root hr

-- With an absolute root, a path that `containedJoin` returns is the root itself or lies below it.
pub contained_join-IsBelow :
    (root rel joined : Text)
    → IsRooted root
    → contained_join root rel ≡ ok joined
    → IsBelow root rel joined
contained_join-IsBelow root rel joined h ran =
    let names = resolve_from root rel in
    let hn = resolve_from-IsName root rel in
    let hr = resolve-IsName root in
    let (e, place) =
      checked-cases rel (rendered true names) (rendered true (resolve root))
        (sym (contained_join-rooted root rel h) ∙ ran) in
    subst (IsBelow root rel) e (elim place [
      | inl same ↦
          joined-IsBelow root rel []
            (rendered-injective names (resolve root) hn hr same ∙ sym (append-nil (resolve root)))
      | inr (t, longer) ↦
          let (below, e') = rendered_prefix names (resolve root) t hn hr longer in
          joined-IsBelow root rel below e'
    ])

check_contained-same : (rel root : Text) → check_contained rel root root ≡ ok root
unfolding check_contained
check_contained-same rel root = rw (text_eq_refl root)

check_contained-prefix :
    (rel root t : Text) → check_contained rel (root ++ (b'/' ∷ t)) root ≡ ok (root ++ (b'/' ∷ t))
unfolding check_contained
check_contained-prefix rel root t =
    let prefix : has_prefix (root ++ (b'/' ∷ t)) (root ++ codes "/") ≡ true =
      rw (← append_assoc root (codes "/") t) (has_prefix-append (root ++ codes "/") t) in
    ground arith

check_contained-ok :
    (rel : Text) (names below : List Text)
    → names ≢ []
    → check_contained rel (rendered true (names ++ below)) (rendered true names)
      ≡ ok (rendered true (names ++ below))
check_contained-ok rel names [] deep =
    rw (append-nil names) (check_contained-same rel (rendered true names))
check_contained-ok rel names (next ∷ below) deep =
    rw (rendered-append names next below deep)
      (check_contained-prefix rel (rendered true names) (join (next ∷ below) (codes "/")))

-- Where the relative path leads below a root that is not that of the file system, the path to it is
-- returned.
pub contained_join-ok :
    (root rel : Text) (below : List Text)
    → IsRooted root
    → resolve root ≢ []
    → resolve_from root rel ≡ resolve root ++ below
    → contained_join root rel ≡ ok (rendered true (resolve root ++ below))
contained_join-ok root rel below h deep e =
    contained_join-rooted root rel h ∙ rw e (check_contained-ok rel (resolve root) below deep)
