-- ===== src/ProjectPath/Safe.antt =====
-- projectpath.go, `Validate`, and how a file system resolves a path.
use mathlib.Core.List.{append-nil, append_assoc}
use syncctl.Base.{
  not-false, or_false, true, false, not, ◌||◌, List, [], ◌∷◌, ◌++◌, All, ◌≡◌, ◌≢◌, refl, sym, Text,
  codes, is_empty, inl, inr, ◌∙◌, text_eq, text_eq_iff, if◌then◌else◌, Bool-cases,
}
use syncctl.Base.Result.{Result, ok, err, ◌>>◌, guard-eq-ok}
use syncctl.Base.Strings.{has_prefix, contains_byte, split}
use syncctl.ProjectPath.{
  path_empty, leading_slash, has_backslash, has_nul, empty_segment, traversal_segment,
  invalid_characters, valid_path, check_segments, validate,
}

-- A segment that names an entry of its directory.
pub record IsSegment (seg : Text) : Type 0 where
  pub not_empty : seg ≢ []
  pub not_here : seg ≢ codes "."
  pub not_up : seg ≢ codes ".."

pub text_eq-ne : (a b : Text) → text_eq a b ≡ false → a ≢ b
text_eq-ne a b h e = let yes' = (text_eq_iff a b).1 e in cc

pub set-ne : (a : Text) → is_empty a ≡ false → a ≢ []
set-ne [] h e = cc
set-ne (c ∷ a) h e = cc

check_segments-IsSegment : (segs : List Text) → check_segments segs ≡ ok tt → All IsSegment segs
unfolding check_segments
check_segments-IsSegment [] h = tt
check_segments-IsSegment (seg ∷ rest) h =
    let (some_bytes, h1) = guard-eq-ok (is_empty seg) empty_segment h in
    let (no_dots, h2) =
      guard-eq-ok (text_eq seg (codes ".") || text_eq seg (codes "..")) (traversal_segment seg)
        h1 in
    let (here, up) = or_false _ (text_eq seg (codes "..")) no_dots in
    (
      record {
        not_empty = set-ne seg some_bytes;
        not_here = text_eq-ne seg _ here;
        not_up = text_eq-ne seg _ up;
      },
      check_segments-IsSegment rest h2,
    )

-- The directory above; the root is its own.
unfoldable pub parent : List Text → List Text
parent [] = []
parent (d ∷ []) = []
parent (d ∷ e ∷ dirs) = d ∷ parent (e ∷ dirs)

-- How a file system resolves segments from a directory: an empty one and `.` stay, `..` goes up,
-- and any other goes down.
unfoldable pub walk : List Text → List Text → List Text
unfolding parent
walk dirs [] = dirs
walk dirs (seg ∷ rest) =
    let here = walk dirs rest in
    let up = walk (parent dirs) rest in
    let down = walk (dirs ++ seg ∷ []) rest in
    if is_empty seg || text_eq seg (codes ".")
    then here
    else if text_eq seg (codes "..")
    then up
    else down

pub ne-text_eq : (a b : Text) → a ≢ b → text_eq a b ≡ false
ne-text_eq a b h = elim (Bool-cases (text_eq a b)) [
  | inl same ↦ absurd (h ((text_eq_iff a b).0 same))
  | inr other ↦ other
]

pub ne-set : (a : Text) → a ≢ [] → is_empty a ≡ false
ne-set [] h = absurd (h refl)
ne-set (c ∷ a) h = refl

walk-down :
    (dirs : List Text) (seg : Text) (rest : List Text)
    → IsSegment seg
    → walk dirs (seg ∷ rest) ≡ walk (dirs ++ seg ∷ []) rest
unfolding walk
walk-down dirs seg rest h =
    rw (ne-set seg h.not_empty, ne-text_eq seg _ h.not_here, ne-text_eq seg _ h.not_up) refl

pub walk-IsSegment : (dirs segs : List Text) → All IsSegment segs → walk dirs segs ≡ dirs ++ segs
unfolding walk
walk-IsSegment dirs [] h = sym (append-nil dirs)
walk-IsSegment dirs (seg ∷ rest) (h, hs) =
    walk-down dirs seg rest h
    ∙ walk-IsSegment (dirs ++ seg ∷ []) rest hs
    ∙ append_assoc dirs (seg ∷ []) rest

-- The bytes of an accepted path, and where it leads.
pub record IsContained (path : Text) : Type 0 where
  pub bytes : valid_path path ≡ true
  pub segments : All IsSegment (split path b'/')
  pub below : (dirs : List Text) → walk dirs (split path b'/') ≡ dirs ++ split path b'/'

seq-ok : {E : Type 0} (m k : Result E (Unit {0})) → (m >> k) ≡ ok tt → (m ≡ ok tt) × (k ≡ ok tt)
seq-ok (ok _) k h = (refl, h)
seq-ok (err e) k h = cc

-- An accepted path has only bytes of the grammar, begins with a letter or digit, has no segment
-- that is empty, `.` or `..`, and from any directory leads to the entry below that its segments
-- name one after the other.
pub validate-IsContained : (path : Text) → validate path ≡ ok tt → IsContained path
unfolding validate
validate-IsContained path h =
    let (_, h1) = guard-eq-ok (is_empty path) path_empty h in
    let (_, h2) = guard-eq-ok (has_prefix path (codes "/")) leading_slash h1 in
    let (_, h3) = guard-eq-ok (contains_byte path b'\\') has_backslash h2 in
    let (_, h4) = guard-eq-ok (contains_byte path 0) has_nul h3 in
    let (segs, matched) = seq-ok (check_segments (split path b'/')) _ h4 in
    let (grammar, _) = guard-eq-ok (not (valid_path path)) (invalid_characters path) matched in
    let fine = check_segments-IsSegment (split path b'/') segs in
    record {
      bytes = not-false _ grammar;
      segments = fine;
      below = λ dirs. walk-IsSegment dirs (split path b'/') fine;
    }
