-- ===== src/ApiValidator/Agreement.antt =====
-- apivalidator/reconciler.go, `Reconcile`: what the two counts of an endpoint add to its counters.
use syncctl.Base.{
  ℕ, ◌+◌, true, List, [], ◌∷◌, ==_iff, All, ◌≡◌, ◌↔◌, inl, inr, refl, ap, arith, Text, Bool-cases,
  if◌then◌else◌,
}
use syncctl.Base.Int.{ℤ, pos, negsuc}
use syncctl.Base.Result.{Result, ok, err}
use syncctl.ApiValidator.{CountError, ApiTally, same_count, note_counts}

pos-injective : (a b : ℕ) → pos a ≡ pos b → a ≡ b
pos-injective a b e = cc

negsuc-injective : (a b : ℕ) → negsuc a ≡ negsuc b → a ≡ b
negsuc-injective a b e = cc

same_count_iff : (a b : ℤ) → (same_count a b ≡ true) ↔ (a ≡ b)
unfolding same_count
same_count_iff (pos a) (pos b) =
    ((λ h. ap pos ((==_iff a b).0 h)), λ e. (==_iff a b).1 (pos-injective a b e))
same_count_iff (negsuc a) (negsuc b) =
    ((λ h. ap negsuc ((==_iff a b).0 h)), λ e. (==_iff a b).1 (negsuc-injective a b e))
same_count_iff (pos a) (negsuc b) = ((λ h. cc), λ e. cc)
same_count_iff (negsuc a) (pos b) = ((λ h. cc), λ e. cc)

-- Where both counts were read, they are the same.
abbrev pub Agree : Result CountError ℤ × Result CountError ℤ → Type 0
Agree (ok p, ok s) = p ≡ s
Agree (ok p, err e) = Unit
Agree (err e, s) = Unit

-- What an endpoint adds to the counters, by its two counts.
abbrev pub drift_of : Result CountError ℤ → Result CountError ℤ → ℕ
drift_of (ok p) (ok s) = if same_count p s then 0 else 1
drift_of (ok p) (err e) = 0
drift_of (err e) s = 0

abbrev pub unread : Result CountError ℤ → Result CountError ℤ → ℕ
unread (ok p) (ok s) = 0
unread (ok p) (err e) = 1
unread (err e) s = 1

pub note_counts_lem :
    (label : Text) (p s : Result CountError ℤ) (t : ApiTally)
    → ((note_counts label p s t).drifts ≡ t.drifts + drift_of p s)
      × ((note_counts label p s t).remaining ≡ t.remaining + (drift_of p s + unread p s))
unfolding note_counts
note_counts_lem label (err e) s t = (omega arith, omega arith)
note_counts_lem label (ok p) (err e) t = (omega arith, omega arith)
note_counts_lem label (ok p) (ok s) t = elim (Bool-cases (same_count p s)) [
  | inl same ↦ rw same (omega arith, omega arith)
  | inr other ↦ rw other (omega arith, omega arith)
]

abbrev pub sum_of :
    (Result CountError ℤ → Result CountError ℤ → ℕ)
    → List (Result CountError ℤ × Result CountError ℤ)
    → ℕ
sum_of f [] = 0
sum_of f ((p, s) ∷ counts) = f p s + sum_of f counts

drift_of_none : (p s : Result CountError ℤ) → (drift_of p s ≡ 0) ↔ Agree (p, s)
drift_of_none (ok p) (ok s) = elim (Bool-cases (same_count p s)) [
  | inl same ↦ rw same ((λ h. (same_count_iff p s).0 same), λ e. refl)
  | inr other ↦
      rw other ((λ h. absurd (omega arith)), λ e. let same = (same_count_iff p s).1 e in cc)
]
drift_of_none (ok p) (err e) = ((λ h. tt), λ h. refl)
drift_of_none (err e) s = ((λ h. tt), λ h. refl)

pub sum_of_none :
    (counts : List (Result CountError ℤ × Result CountError ℤ))
    → (sum_of drift_of counts ≡ 0) ↔ All Agree counts
sum_of_none [] = ((λ h. tt), λ h. refl)
sum_of_none ((p, s) ∷ counts) =
    let (to, from) = drift_of_none p s in
    let (tos, froms) = sum_of_none counts in
    ((λ h. (to (omega arith), tos (omega arith))), λ h. omega (arith, from h.0, froms h.1))
