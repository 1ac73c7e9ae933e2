-- ===== src/Registry/Sets.antt =====
-- registry/reconciler.go: a site counts as in sync exactly if both list the same.
use syncctl.Base.{
  suc, ◌≤◌, Bool, true, false, ◌||◌, List, [], ◌∷◌, all, length, ◌≡◌, ◌↔◌, inl, inr, refl, sym, ap,
  ◌∙◌, arith, Text, text_eq, text_eq_iff, text_eq_refl, if◌then◌else◌, Bool-cases, and_true,
  or_false, not-false,
}
use syncctl.Base.Result.{Result, ok, err}
use syncctl.Registry.Compare.{has, to_set, set_diff, equal_set, tags_differ}

-- No element twice.
Distinct : List Text → Type 0
Distinct [] = Unit
Distinct (x ∷ xs) = (has xs x ≡ false) × Distinct xs

to_set-Distinct : (xs : List Text) → Distinct (to_set xs)
unfolding Distinct to_set
to_set-Distinct [] = tt
to_set-Distinct (x ∷ xs) = elim (Bool-cases (has (to_set xs) x)) [
  | inl there ↦ rw there (to_set-Distinct xs)
  | inr new ↦ rw new (new, to_set-Distinct xs)
]

-- Without the first element that equals it.
remove : Text → List Text → List Text
remove x [] = []
remove x (y ∷ ys) = if text_eq x y then ys else y ∷ remove x ys

length-remove :
    (x : Text) (ys : List Text) → has ys x ≡ true → suc (length (remove x ys)) ≡ length ys
unfolding remove has
length-remove x [] h = cc
length-remove x (y ∷ ys) h = ground (arith, length-remove x ys)

has-remove :
    (x z : Text) (ys : List Text)
    → text_eq z x ≡ false
    → has ys z ≡ true
    → has (remove x ys) z ≡ true
unfolding remove has
has-remove x z [] other h = h
has-remove x z (y ∷ ys) other h =
    ground (arith, has-remove x z ys, text_eq_iff x y, text_eq_iff z y, text_eq_iff z x)

text_eq_sym : (x z : Text) → text_eq x z ≡ false → text_eq z x ≡ false
text_eq_sym x z h = ground (arith, text_eq_iff x z, text_eq_iff z x)

all-remove :
    (x : Text) (zs ys : List Text)
    → has zs x ≡ false
    → all (has ys) zs ≡ true
    → all (has (remove x ys)) zs ≡ true
all-remove x [] ys new h = refl
all-remove x (z ∷ zs) ys new h =
    let (hz, hzs) = and_true (has ys z) (all (has ys) zs) h in
    let (other, rest) = or_false (text_eq x z) (has zs x) (unfold has in new) in
    ground (arith, has-remove x z ys (text_eq_sym x z other) hz, all-remove x zs ys rest hzs)

-- Distinct elements of a list are no more than its length.
length-le : (xs ys : List Text) → Distinct xs → all (has ys) xs ≡ true → length xs ≤ length ys
unfolding Distinct
length-le [] ys d h = omega arith
length-le (x ∷ xs) ys (new, d) h =
    let (hx, hxs) = and_true (has ys x) (all (has ys) xs) h in
    omega (arith, length-remove x ys hx, length-le xs (remove x ys) d (all-remove x xs ys new hxs))

-- If the distinct elements of one list are in another that is not longer, the other has no more.
covers :
    (xs ys : List Text)
    → Distinct xs
    → all (has ys) xs ≡ true
    → length ys ≤ length xs
    → Distinct ys
    → (zs : List Text) → all (has ys) zs ≡ true
    → all (has xs) zs ≡ true
covers xs ys dx h le dy [] k = refl
covers xs ys dx h le dy (z ∷ zs) k =
    let (kz, kzs) = and_true (has ys z) (all (has ys) zs) k in
    elim (Bool-cases (has xs z)) [
      | inl there ↦ ground (arith, covers xs ys dx h le dy zs kzs)
      | inr new ↦
          absurd
            (omega (arith, length-le (z ∷ xs) ys (unfold Distinct in (new, dx)) (rw (kz, h) refl)))
    ]

-- The same elements.
abbrev pub SameSet : List Text → List Text → Type 0
SameSet a b = (k : Text) → has a k ≡ has b k

has-all : (a b : List Text) (k : Text) → all (has b) a ≡ true → has a k ≡ true → has b k ≡ true
unfolding has
has-all [] b k h there = cc
has-all (x ∷ a) b k h there = elim (Bool-cases (text_eq k x)) [
  | inl same ↦
      let e = (text_eq_iff k x).0 same in
      rw e (unfold has in (and_true (has b x) (all (has b) a) h).0)
  | inr other ↦
      has-all a b k (unfold has in (and_true (has b x) (all (has b) a) h).1) (ground arith)
]

all-has : (a b : List Text) → ((k : Text) → has a k ≡ true → has b k ≡ true) → all (has b) a ≡ true
unfolding has
all-has [] b h = refl
all-has (x ∷ a) b h =
    ground (arith, h x, text_eq_refl x, all-has a b (λ k there. h k (ground arith)))

Bool-eq : (x y : Bool) → (x ≡ true → y ≡ true) → (y ≡ true → x ≡ true) → x ≡ y
Bool-eq true y f g = sym (f refl)
Bool-eq false true f g = g refl
Bool-eq false false f g = refl

pub SameSet-iff :
    (a b : List Text) → SameSet a b ↔ ((all (has b) a ≡ true) × (all (has a) b ≡ true))
SameSet-iff a b = (
  (λ h. (all-has a b (λ k e. sym (h k) ∙ e), all-has b a (λ k e. h k ∙ e))),
  (λ h k. Bool-eq (has a k) (has b k) (has-all a b k h.0) (has-all b a k h.1)),
)

pub seen :
    (set : List Text) (x k : Text) {found : Bool}
    → has set x ≡ true
    → has set k ≡ found
    → has set k ≡ (text_eq k x || found)
seen set x k there e = elim (Bool-cases (text_eq k x)) [
  | inl same ↦ rw same (rw ((text_eq_iff k x).0 same) there)
  | inr other ↦ rw other e
]

has-to_set : (xs : List Text) (k : Text) → has (to_set xs) k ≡ has xs k
unfolding has to_set
has-to_set [] k = refl
has-to_set (x ∷ xs) k = elim (Bool-cases (has (to_set xs) x)) [
  | inl there ↦ rw there (seen (to_set xs) x k there (has-to_set xs k))
  | inr new ↦ rw new (ap (λ found. text_eq k x || found) (has-to_set xs k))
]

pub set_diff-none : (a b : List Text) → (length (set_diff a b) ≡ 0) ↔ (all (has b) a ≡ true)
unfolding set_diff
set_diff-none [] b = ((λ _. refl), λ _. refl)
set_diff-none (k ∷ a) b =
    let (to, from) = set_diff-none a b in
    elim (Bool-cases (has b k)) [
      | inl there ↦ rw there (to, from)
      | inr missing ↦ rw missing ((λ e. absurd (omega arith)), λ e. cc)
    ]

equal_set_parts :
    (a b : List Text) → (equal_set a b ≡ true) ↔ ((length a ≡ length b) × (all (has b) a ≡ true))
unfolding equal_set
equal_set_parts a b = ground arith

equal_set_iff : (a b : List Text) → Distinct a → Distinct b → (equal_set a b ≡ true) ↔ SameSet a b
equal_set_iff a b da db =
    let (parts, whole) = equal_set_parts a b in
    let (halves, same) = SameSet-iff a b in
    (
      (λ h.
          let (size, inside) = parts h in
          same (inside, covers a b da inside (omega (arith, size)) db b (all-has b b (λ k e. e)))),
      (λ h.
          let (inside, back) = halves h in
          whole (omega (arith, length-le a b da inside, length-le b a db back), inside)),
    )

-- The tags of a repository are listed by both sites, and are the same.
unfoldable pub SameTags : {E : Type 0} → Result E (List Text) → Result E (List Text) → Type 0
SameTags (ok p) (ok s) = SameSet p s
SameTags (ok p) (err e) = ⊥
SameTags (err e) s = ⊥

pub SameSet-to_set : (p s : List Text) → SameSet (to_set p) (to_set s) ↔ SameSet p s
SameSet-to_set p s = (
  (λ h k. sym (has-to_set p k) ∙ h k ∙ has-to_set s k),
  (λ h k. has-to_set p k ∙ h k ∙ sym (has-to_set s k)),
)

pub tags_differ-false :
    {E : Type 0} (p s : Result E (List Text)) → (tags_differ p s ≡ false) ↔ SameTags p s
unfolding tags_differ SameTags
tags_differ-false (err e) s = ((λ h. cc), λ h. absurd h)
tags_differ-false (ok p) (err e) = ((λ h. cc), λ h. absurd h)
tags_differ-false (ok p) (ok s) =
    let (same, equal) =
      equal_set_iff (to_set p) (to_set s) (to_set-Distinct p) (to_set-Distinct s) in
    let (to, from) = SameSet-to_set p s in
    ((λ h. to (same (not-false _ h))), λ h. rw (equal (from h)) refl)
