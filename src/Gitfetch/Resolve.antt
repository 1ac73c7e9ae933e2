-- ===== src/Gitfetch/Resolve.antt =====
-- Where an absolute path leads, and that `filepath.Clean` and `filepath.Join` write the names of it.
use mathlib.Core.List.{reverse, reverse-cons}
use syncctl.Base.{
  true, false, List, [], ◌∷◌, ◌++◌, All, ◌≡◌, refl, ap, ◌∙◌, arith, Text, codes, Bool-cases, inl,
  inr,
}
use syncctl.Base.Strings.{has_prefix, split, join}
use syncctl.Base.Strings.Laws.{avoids}
use syncctl.Base.FilePaths.{is_dot, is_dots, back_up, clean_onto, rendered, clean, join_paths}
use syncctl.ProjectPath.Safe.{
  IsSegment, parent, walk, walk-IsSegment, text_eq-ne, set-ne, ne-text_eq,
}
use syncctl.Gitfetch.Segments.{split-append, split-Avoids, IsName, split-join, All-reverse}

parent-snoc : (dirs : List Text) (d : Text) → parent (dirs ++ d ∷ []) ≡ dirs
unfolding parent
parent-snoc [] d = refl
parent-snoc (e ∷ []) d = refl
parent-snoc (e ∷ f ∷ dirs) d = ap (λ x. e ∷ x) (parent-snoc (f ∷ dirs) d)

parent-reverse :
    (names : List Text) → All IsName names → parent (reverse names) ≡ reverse (back_up true names)
unfolding parent back_up
parent-reverse [] h = refl
parent-reverse (name ∷ names) (h, hs) =
    rw (reverse-cons, ne-text_eq name _ h.segment.not_up) (parent-snoc (reverse names) name)

back_up-IsName : (names : List Text) → All IsName names → All IsName (back_up true names)
unfolding back_up
back_up-IsName [] h = tt
back_up-IsName (name ∷ names) (h, hs) = rw (ne-text_eq name _ h.segment.not_up) hs

segment-IsName :
    (seg : Text) → avoids b'/' seg ≡ true → is_dot seg ≡ false → is_dots seg ≡ false → IsName seg
segment-IsName seg whole dot dots = record {
  segment = record {
    not_empty = set-ne seg (ground arith);
    not_here = text_eq-ne seg _ (ground arith);
    not_up = text_eq-ne seg _ dots;
  };
  whole = whole;
}

-- Cleaning keeps the names that a walk from the root ends at.
clean_onto-walk :
    (segs names : List Text)
    → All (λ s. avoids b'/' s ≡ true) segs
    → All IsName names
    → (reverse (clean_onto true names segs) ≡ walk (reverse names) segs)
      × All IsName (clean_onto true names segs)
unfolding clean_onto walk
clean_onto-walk [] names hs h = (refl, h)
clean_onto-walk (seg ∷ rest) names (w, hs) h = elim (Bool-cases (is_dot seg)) [
  | inl dot ↦ rw dot (clean_onto-walk rest names hs h)
  | inr named ↦ elim (Bool-cases (is_dots seg)) [
    | inl up ↦
        rw (named, up, parent-reverse names h)
          (clean_onto-walk rest (back_up true names) hs (back_up-IsName names h))
    | inr down ↦
        rw (named, down, ← reverse-cons)
          (clean_onto-walk rest (seg ∷ names) hs (segment-IsName seg w named down, h))
  ]
]

-- The entry that an absolute path leads to, by the names from the root down.
abbrev pub resolve : Text → List Text
resolve path = walk [] (split path b'/')

abbrev pub IsRooted : Text → Type 0
IsRooted path = has_prefix path (codes "/") ≡ true

pub resolve-IsName : (path : Text) → All IsName (resolve path)
resolve-IsName path =
    let (e, names) = clean_onto-walk (split path b'/') [] (split-Avoids path b'/') tt in
    rw (← e) (All-reverse IsName (clean_onto true [] (split path b'/')) names)

pub clean-rooted : (path : Text) → IsRooted path → clean path ≡ rendered true (resolve path)
unfolding clean
clean-rooted [] h = unfold has_prefix in cc
clean-rooted (c ∷ path) h = rw h (
    ap (rendered true)
      (clean_onto-walk (split (c ∷ path) b'/') [] (split-Avoids (c ∷ path) b'/') tt).0)

walk-append : (dirs a b : List Text) → walk dirs (a ++ b) ≡ walk (walk dirs a) b
unfolding walk
walk-append dirs [] b = refl
walk-append dirs (seg ∷ a) b = elim (Bool-cases (is_dot seg)) [
  | inl dot ↦ rw dot (walk-append dirs a b)
  | inr named ↦ elim (Bool-cases (is_dots seg)) [
    | inl up ↦ rw (named, up) (walk-append (parent dirs) a b)
    | inr down ↦ rw (named, down) (walk-append (dirs ++ seg ∷ []) a b)
  ]
]

rooted-append : (root s : Text) → IsRooted root → IsRooted (root ++ s)
unfolding has_prefix
rooted-append [] s h = cc
rooted-append (c ∷ root) s h = h

-- Where a path leads from a root: to the entry that its segments lead to from there.
abbrev pub resolve_from : Text → Text → List Text
resolve_from root rel = walk (resolve root) (split rel b'/')

resolve-append : (root rel : Text) → resolve (root ++ (b'/' ∷ rel)) ≡ resolve_from root rel
resolve-append root rel =
    ap (walk []) (split-append root rel b'/') ∙ walk-append [] (split root b'/') (split rel b'/')

pub resolve_from-IsName : (root rel : Text) → All IsName (resolve_from root rel)
resolve_from-IsName root rel =
    rw (← resolve-append root rel) (resolve-IsName (root ++ (b'/' ∷ rel)))

pub join_paths-rooted :
    (root rel : Text) → IsRooted root → join_paths root rel ≡ rendered true (resolve_from root rel)
unfolding join_paths
join_paths-rooted [] rel h = unfold has_prefix in cc
join_paths-rooted (c ∷ root) rel h =
    clean-rooted ((c ∷ root) ++ (b'/' ∷ rel)) (rooted-append (c ∷ root) (b'/' ∷ rel) h)
    ∙ ap (rendered true) (resolve-append (c ∷ root) rel)

pub IsName-segments : (names : List Text) → All IsName names → All IsSegment names
IsName-segments [] h = tt
IsName-segments (name ∷ names) (h, hs) = (h.segment, IsName-segments names hs)

-- The names that stand in a path which `Clean` writes.
pub resolve-rendered :
    (names : List Text) → All IsName names → resolve (rendered true names) ≡ names
unfolding rendered
resolve-rendered [] h = unfold walk split join in refl
resolve-rendered (name ∷ names) h =
    ap (walk []) (split-append [] (join (name ∷ names) (codes "/")) b'/')
    ∙ rw (split-join name names h)
        (unfold walk split in walk-IsSegment [] (name ∷ names) (IsName-segments (name ∷ names) h))
