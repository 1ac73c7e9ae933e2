-- ===== src/Gitfetch/Segments.antt =====
-- The texts that `filepath.Clean` writes, and the segments that they are split into.
use mathlib.Core.List.{reverse, reverse-cons, append_assoc}
use syncctl.Base.{
  ℕ, true, false, List, [], ◌∷◌, ◌++◌, All, All-append, ◌≡◌, refl, sym, ap, ◌∙◌, arith, ◌==◌, Text,
  codes, Bool-cases, inl, inr,
}
use syncctl.Base.Strings.{has_prefix, split, join, cons_first}
use syncctl.Base.Strings.Laws.{avoids}
use syncctl.ProjectPath.Safe.{IsSegment}

pub split-cons : (s : Text) (c : ℕ) → (w : Text) × (ws : List Text) × (split s c ≡ w ∷ ws)
unfolding split
split-cons [] c = ([], [], refl)
split-cons (d ∷ s) c = elim (Bool-cases (d == c)) [
  | inl here ↦ ([], split s c, rw here)
  | inr there ↦ let (w, ws, e) = split-cons s c in (d ∷ w, ws, rw (there, e))
]

-- A text is split at each separator apart from what stands around it.
pub split-append : (a b : Text) (c : ℕ) → split (a ++ (c ∷ b)) c ≡ split a c ++ split b c
unfolding split
split-append [] b c = ground arith
split-append (d ∷ a) b c = let (w, ws, e) = split-cons a c in ground (arith, split-append a b c)

pub split-avoids : (s : Text) (c : ℕ) → avoids c s ≡ true → split s c ≡ s ∷ []
unfolding split
split-avoids [] c h = refl
split-avoids (d ∷ s) c h = ground (arith, split-avoids s c)

abbrev Avoids : ℕ → Text → Type 0
Avoids c seg = avoids c seg ≡ true

cons_first-Avoids :
    (c d : ℕ) (ws : List Text)
    → (d == c) ≡ false
    → All (Avoids c) ws
    → All (Avoids c) (cons_first d ws)
cons_first-Avoids c d [] h hs = ground arith
cons_first-Avoids c d (w ∷ ws) h hs = ground arith

pub split-Avoids : (s : Text) (c : ℕ) → All (Avoids c) (split s c)
unfolding split
split-Avoids [] c = (refl, tt)
split-Avoids (d ∷ s) c = elim (Bool-cases (d == c)) [
  | inl here ↦ rw here (refl, split-Avoids s c)
  | inr there ↦ rw there (cons_first-Avoids c d (split s c) there (split-Avoids s c))
]

-- A name of an entry: a segment with no slash in it.
pub record IsName (seg : Text) : Type 0 where
  pub segment : IsSegment seg
  pub whole : avoids b'/' seg ≡ true

pub split-join :
    (name : Text) (names : List Text)
    → All IsName (name ∷ names)
    → split (join (name ∷ names) (codes "/")) b'/' ≡ name ∷ names
unfolding join
split-join name [] h = split-avoids name b'/' h.0.whole
split-join name (next ∷ names) (h, hs) =
    split-append name (join (next ∷ names) (codes "/")) b'/'
    ∙ rw (split-avoids name b'/' h.whole, split-join next names hs) refl

pub join-append :
    (name : Text) (names : List Text) (next : Text) (rest : List Text)
    → join ((name ∷ names) ++ (next ∷ rest)) (codes "/")
      ≡ join (name ∷ names) (codes "/") ++ (b'/' ∷ join (next ∷ rest) (codes "/"))
unfolding join
join-append name [] next rest = refl
join-append name (other ∷ names) next rest =
    ap (λ s. name ++ (b'/' ∷ s)) (join-append other names next rest)
    ∙ sym (append_assoc name (b'/' ∷ join (other ∷ names) (codes "/")) _)

pub has_prefix-split : (s p : Text) → has_prefix s p ≡ true → (t : Text) × (s ≡ p ++ t)
unfolding has_prefix
has_prefix-split s [] h = (s, refl)
has_prefix-split [] (c ∷ p) h = cc
has_prefix-split (d ∷ s) (c ∷ p) h = elim (Bool-cases (has_prefix s p)) [
  | inl more ↦ let (t, e) = has_prefix-split s p more in (t, ground arith)
  | inr less ↦ absurd (ground arith)
]

pub has_prefix-append : (p t : Text) → has_prefix (p ++ t) p ≡ true
unfolding has_prefix
has_prefix-append [] t = refl
has_prefix-append (c ∷ p) t = ground (arith, has_prefix-append p t)

pub All-reverse {ℓ κ} : {A : Type ℓ} (P : A → Type κ) (xs : List A) → All P xs → All P (reverse xs)
All-reverse P [] h = tt
All-reverse P (x ∷ xs) (h, hs) =
    rw (reverse-cons) (All-append P (reverse xs) (x ∷ []) (All-reverse P xs hs) (h, tt))
