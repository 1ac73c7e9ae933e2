-- ===== src/Base/Numbers/Laws.antt =====
-- The texts that `Atoi` accepts and that `Itoa` writes.
use Prim.Native.Nat.{ℕ, zero, suc, ◌+◌, ◌-◌, ◌*◌, ◌/◌, ◌%◌}
use mathlib.Core.Path.{◌≡◌, refl}
use mathlib.Core.Bool.{Bool, true, false, ◌||◌}
use mathlib.Core.Logic.{inl, inr}
use mathlib.Core.Option.{Option, none, some}
use mathlib.Core.List.{[], ◌∷◌}
use native.Mathlib.Omega.{arith}
use syncctl.Base.Logic.{◌==◌, if_both, Bool-cases}
use syncctl.Base.Lists.{all}
use syncctl.Base.Bytes.{Text}
use syncctl.Base.Int.{ℤ, pos, negsuc}
use syncctl.Base.Strings.Laws.{all_mono}
use syncctl.Base.Numbers.{is_digit, digits_value, unsigned, in_range, atoi, digits_onto, itoa}

unfoldable pub sign_or_digit : ℕ → Bool
sign_or_digit c = is_digit c || c == b'+' || c == b'-'

digits_value-all :
    (s : Text) (acc : ℕ) {n : ℕ} → digits_value acc s ≡ some n → all is_digit s ≡ true
unfolding digits_value
digits_value-all [] acc h = refl
digits_value-all (c ∷ s) acc {n} h =
    ground (arith, digits_value-all s (acc * 10 + (c - b'0')) {n = n})

unsigned-all : (s : Text) {n : ℕ} → unsigned s ≡ some n → all sign_or_digit s ≡ true
unfolding unsigned
unsigned-all [] h = cc
unsigned-all (c ∷ s) h =
    all_mono {p = is_digit} {q = sign_or_digit} (c ∷ s)
      (λ d e. unfold sign_or_digit in ground arith) (digits_value-all (c ∷ s) 0 h)

in_range-some :
    (neg : Bool) (o : Option ℕ) {n : ℤ} → in_range neg o ≡ some n → (m : ℕ) × (o ≡ some m)
unfolding in_range
in_range-some neg none h = cc
in_range-some neg (some m) h = (m, refl)

-- A number is read from digits behind at most one sign.
pub atoi-all : (s : Text) {n : ℤ} → atoi s ≡ some n → all sign_or_digit s ≡ true
unfolding atoi
atoi-all [] h = refl
atoi-all (c ∷ s) h = elim (Bool-cases (c == b'-')) [
  | inl minus ↦
      let (m, e) = in_range-some true (unsigned s) (rw minus at h) in
      unfold sign_or_digit in ground (arith, unsigned-all s e)
  | inr signed ↦ elim (Bool-cases (c == b'+')) [
    | inl plus ↦
        let (m, e) = in_range-some false (unsigned s) (rw (signed, plus) at h) in
        unfold sign_or_digit in ground (arith, unsigned-all s e)
    | inr plain ↦
        let (m, e) = in_range-some false (unsigned (c ∷ s)) (rw (signed, plain) at h) in
        unsigned-all (c ∷ s) e
  ]
]

abbrev Signed : Text → Type 0
Signed s = all sign_or_digit s ≡ true

digits_onto-all : (fuel n : ℕ) (out : Text) → Signed out → Signed (digits_onto fuel n out)
unfolding digits_onto
digits_onto-all zero n out h = h
digits_onto-all (suc fuel) n out h =
    let one : Signed ((b'0' + n % 10) ∷ out) = unfold sign_or_digit in ground arith in
    if_both Signed (n / 10 == 0) one (digits_onto-all fuel (n / 10) ((b'0' + n % 10) ∷ out) one)

-- A number is written with digits behind at most one sign.
pub itoa-all : (n : ℤ) → Signed (itoa n)
unfolding itoa sign_or_digit
itoa-all (pos n) = digits_onto-all (suc n) n [] refl
itoa-all (negsuc n) = digits_onto-all (suc (suc n)) (suc n) [] refl
