-- ===== src/Gitfetch/Layout.antt =====
-- gitfetch/reconciler.go, `repoDiskPath`: the relative path of a repository has only names, so that
-- `containedJoin` takes it as it is.
use mathlib.Core.Path.{subst}
use syncctl.Base.{
  ℕ, zero, suc, ◌≤◌, Bool, true, false, ◌&&◌, ◌||◌, List, [], ◌∷◌, ◌++◌, All, all, take, drop,
  length, length-append, ◌≡◌, ◌≢◌, refl, sym, ap, ◌∙◌, arith, leb, ◌==◌, Text, codes, is_empty,
  Bool-cases, inl, inr,
}
use syncctl.Base.Int.{ℤ}
use syncctl.Base.Numbers.{itoa}
use syncctl.Base.Result.{Result, ok, err, ok-injective, guard-eq-ok}
use syncctl.Base.Strings.{split, cons_first}
use syncctl.Base.Strings.Laws.{avoids, all_mono}
use syncctl.Base.FilePaths.{rendered}
use syncctl.ProjectPath.{PathError, validate}
use syncctl.ProjectPath.Safe.{IsSegment, walk-IsSegment, validate-IsContained}
use syncctl.Gitfetch.Paths.{
  no_route_path, legacy_path, hashed_storage_hash, hashed_path, repo_disk_path, contained_join,
}
use syncctl.Gitfetch.Segments.{IsName, split-cons, split-append, split-avoids, split-Avoids}
use syncctl.Gitfetch.Resolve.{IsRooted, resolve, IsName-segments}
use syncctl.Gitfetch.Contained.{contained_join-ok}

-- The text of a SHA-256: 64 digits of base 16.
abbrev is_hex : ℕ → Bool
is_hex c = (leb b'0' c && leb c b'9') || (leb b'a' c && leb c b'f')

pub record IsDigest (h : Text) : Type 0 where
  pub digits : all is_hex h ≡ true
  pub size : length h ≡ 64

hex-avoids : (s : Text) → all is_hex s ≡ true → avoids b'/' s ≡ true
hex-avoids s h = all_mono {p = is_hex} s (λ c e. ground arith) h

hex-IsName : (s : Text) → s ≢ [] → all is_hex s ≡ true → IsName s
hex-IsName s full h = record {
  segment = record {
    not_empty = full;
    not_here = λ e. false_hex (codes ".") (ap (all is_hex) (sym e) ∙ h) refl;
    not_up = λ e. false_hex (codes "..") (ap (all is_hex) (sym e) ∙ h) refl;
  };
  whole = hex-avoids s h;
}
  where
    false_hex : (t : Text) → all is_hex t ≡ true → all is_hex t ≡ false → ⊥
    false_hex t a b = cc

-- Whatever stands before the suffix, it makes a name.
dot_git-IsName : (s : Text) → avoids b'/' s ≡ true → IsName (s ++ codes ".git")
dot_git-IsName s h = record {
  segment = record {
    not_empty = λ e. omega (arith, ap (length {0}) e, length-append {0} s (codes ".git"));
    not_here = λ e. omega (arith, ap (length {0}) e, length-append {0} s (codes ".git"));
    not_up = λ e. omega (arith, ap (length {0}) e, length-append {0} s (codes ".git"));
  };
  whole = avoids-append s h;
}
  where
    avoids-append : (s : Text) → avoids b'/' s ≡ true → avoids b'/' (s ++ codes ".git") ≡ true
    avoids-append [] e = refl
    avoids-append (c ∷ t) e = ground (arith, avoids-append t)

-- The suffix goes to the last segment.
append_last : List Text → Text → List Text
append_last [] t = []
append_last (w ∷ []) t = (w ++ t) ∷ []
append_last (w ∷ v ∷ ws) t = w ∷ append_last (v ∷ ws) t

append_last-cons_first :
    (d : ℕ) (w : Text) (ws : List Text) (t : Text)
    → append_last (cons_first d (w ∷ ws)) t ≡ cons_first d (append_last (w ∷ ws) t)
unfolding append_last
append_last-cons_first d w [] t = refl
append_last-cons_first d w (v ∷ ws) t = refl

split-suffix :
    (s t : Text) (c : ℕ) → avoids c t ≡ true → split (s ++ t) c ≡ append_last (split s c) t
unfolding split append_last
split-suffix [] t c h = split-avoids t c h
split-suffix (d ∷ s) t c h =
    let (w, ws, e) = split-cons s c in
    elim (Bool-cases (d == c)) [
      | inl here ↦ rw (here, e) (ap (λ x. [] ∷ x) (split-suffix s t c h) ∙ rw e refl)
      | inr there ↦ rw (there, split-suffix s t c h, e) (sym (append_last-cons_first d w ws t))
    ]

append_last-IsName : (ws : List Text) → All IsName ws → All IsName (append_last ws (codes ".git"))
unfolding append_last
append_last-IsName [] h = tt
append_last-IsName (w ∷ []) h = (dot_git-IsName w h.0.whole, tt)
append_last-IsName (w ∷ v ∷ ws) (h, hs) = (h, append_last-IsName (v ∷ ws) hs)

-- The segments of an accepted route are names.
zip_IsName :
    (ws : List Text) → All IsSegment ws → All (λ s. avoids b'/' s ≡ true) ws → All IsName ws
zip_IsName [] h k = tt
zip_IsName (w ∷ ws) (h, hs) (k, ks) = (record { segment = h; whole = k }, zip_IsName ws hs ks)

legacy_path-eq-ok :
    (route rel : Text) (checked : Result PathError (Unit {0}))
    → legacy_path route checked ≡ ok rel
    → (checked ≡ ok tt) × (rel ≡ route ++ codes ".git")
unfolding legacy_path
legacy_path-eq-ok route rel (ok _) h = (refl, sym (ok-injective h))
legacy_path-eq-ok route rel (err e) h = cc

legacy_path-IsName :
    (route rel : Text) → legacy_path route (validate route) ≡ ok rel → All IsName (split rel b'/')
legacy_path-IsName route rel h =
    let (accepted, e) = legacy_path-eq-ok route rel (validate route) h in
    let names =
      zip_IsName (split route b'/') (validate-IsContained route accepted).segments
        (split-Avoids route b'/') in
    rw (e, split-suffix route (codes ".git") b'/' refl)
      (append_last-IsName (split route b'/') names)

take-all : (n : ℕ) (s : Text) → all is_hex s ≡ true → all is_hex (take n s) ≡ true
take-all zero s h = refl
take-all (suc n) [] h = refl
take-all (suc n) (c ∷ s) h = ground (arith, take-all n s)

drop-all : (n : ℕ) (s : Text) → all is_hex s ≡ true → all is_hex (drop n s) ≡ true
drop-all zero s h = h
drop-all (suc n) [] h = refl
drop-all (suc n) (c ∷ s) h = ground (arith, drop-all n s)

take-ne : (s : Text) → suc zero ≤ length s → take 2 s ≢ []
take-ne [] h e = omega arith
take-ne (c ∷ s) h e = cc

length-drop : (s : Text) → length s ≡ 64 → suc zero ≤ length (drop 2 s)
length-drop [] h = omega arith
length-drop (a ∷ []) h = omega arith
length-drop (a ∷ b ∷ s) h = omega arith

split-hashed_path :
    (h : Text)
    → IsDigest h
    → split (hashed_path h) b'/'
      ≡ codes "@hashed" ∷ take 2 h ∷ take 2 (drop 2 h) ∷ (h ++ codes ".git") ∷ []
split-hashed_path h d =
    let first = take-all 2 h d.digits in
    let second = take-all 2 (drop 2 h) (drop-all 2 h d.digits) in
    let last = h ++ codes ".git" in
    let rest = take 2 (drop 2 h) ++ (b'/' ∷ last) in
    split-append (codes "@hashed") (take 2 h ++ (b'/' ∷ rest)) b'/'
    ∙ ap (λ ws. split (codes "@hashed") b'/' ++ ws) (split-append (take 2 h) rest b'/')
    ∙ rw
        (
          split-append (take 2 (drop 2 h)) last b'/',
          split-avoids (take 2 h) b'/' (hex-avoids (take 2 h) first),
          split-avoids (take 2 (drop 2 h)) b'/' (hex-avoids (take 2 (drop 2 h)) second),
          split-avoids last b'/' (dot_git-IsName h (hex-avoids h d.digits)).whole,
        )
        (unfold split in refl)

hashed_path-IsName : (h : Text) → IsDigest h → All IsName (split (hashed_path h) b'/')
hashed_path-IsName h d = rw (split-hashed_path h d) (
  record {
    segment = record { not_empty = λ e. cc; not_here = λ e. cc; not_up = λ e. cc };
    whole = refl;
  },
  (
    hex-IsName (take 2 h) (take-ne h (omega (arith, d.size))) (take-all 2 h d.digits),
    (
      hex-IsName (take 2 (drop 2 h)) (take-ne (drop 2 h) (length-drop h d.size))
          (take-all 2 (drop 2 h) (drop-all 2 h d.digits)),
      (dot_git-IsName h (hex-avoids h d.digits), tt),
    ),
  ),
)

module _ (digest : Text → Text) (hex : (t : Text) → IsDigest (digest t)) where
  repo_disk_path-IsName :
      (hashed : Bool) (route : Text) (id : ℤ) (rel : Text)
      → repo_disk_path digest hashed route id ≡ ok rel
      → All IsName (split rel b'/')
  unfolding repo_disk_path
  repo_disk_path-IsName true route id rel h =
      let e : hashed_path (hashed_storage_hash digest id) ≡ rel = ok-injective h in
      subst (λ r. All IsName (split r b'/')) e (hashed_path-IsName _ (hex (itoa id)))
  repo_disk_path-IsName false route id rel h =
      legacy_path-IsName route rel (guard-eq-ok (is_empty route) no_route_path h).1

  -- Below a root that is absolute and not that of the file system, `containedJoin` takes every path
  -- that `repoDiskPath` gives as it is: the repository lies under the root by the segments of the path.
  pub contained_join-repo_disk_path :
      (root : Text) (hashed : Bool) (route : Text) (id : ℤ) (rel : Text)
      → IsRooted root
      → resolve root ≢ []
      → repo_disk_path digest hashed route id ≡ ok rel
      → contained_join root rel ≡ ok (rendered true (resolve root ++ split rel b'/'))
  contained_join-repo_disk_path root hashed route id rel h deep e =
      contained_join-ok root rel (split rel b'/') h deep (
        walk-IsSegment (resolve root) (split rel b'/')
          (IsName-segments (split rel b'/') (repo_disk_path-IsName hashed route id rel e)))
