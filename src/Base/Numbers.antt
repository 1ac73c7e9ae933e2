-- ===== src/Base/Numbers.antt =====
-- Go's `strconv` on decimal integers.
pub mod Laws
use Prim.Native.Nat.{ℕ, zero, suc, ◌+◌, ◌-◌, ◌*◌, ◌/◌, ◌%◌, ◌^◌}
use mathlib.Core.Bool.{Bool, true, false, ◌&&◌}
use mathlib.Core.Option.{Option, none, some}
use mathlib.Core.List.{List, [], ◌∷◌, ◌++◌}
use syncctl.Base.Logic.{ltb, leb, ◌==◌, if◌then◌else◌}
use syncctl.Base.Bytes.{Text}
use syncctl.Base.Int.{ℤ, pos, negsuc, sub_ℕ}

abbrev pub is_digit : ℕ → Bool
is_digit c = leb b'0' c && leb c b'9'

-- The value of a row of digits, onto the value of those before.
unfoldable pub digits_value : ℕ → Text → Option ℕ
digits_value acc [] = some acc
digits_value acc (c ∷ s) =
    let rest = digits_value (acc * 10 + (c - b'0')) s in if is_digit c then rest else none

unsigned : Text → Option ℕ
unsigned [] = none
unsigned (c ∷ s) = digits_value 0 (c ∷ s)

-- `int` has 64 bits; a value outside is an error.
in_range : Bool → Option ℕ → Option ℤ
in_range neg none = none
in_range neg (some n) =
    if neg
    then (if leb n (2 ^ 63) then some (sub_ℕ 0 n) else none)
    else if ltb n (2 ^ 63)
    then some (pos n)
    else none

-- `strconv.Atoi`
unfoldable pub atoi : Text → Option ℤ
unfolding digits_value unsigned in_range
atoi [] = none
atoi (c ∷ s) =
    if c == b'-'
    then in_range true (unsigned s)
    else if c == b'+'
    then in_range false (unsigned s)
    else in_range false (unsigned (c ∷ s))

-- `strconv.Itoa` and `%d` of a number that is not negative; a number has at most as many digits as
-- its value plus one, which is the fuel.
digits_onto : ℕ → ℕ → Text → Text
digits_onto zero n out = out
digits_onto (suc fuel) n out =
    let out' = (b'0' + n % 10) ∷ out in
    let rest = digits_onto fuel (n / 10) out' in if n / 10 == 0 then out' else rest

unfoldable pub decimal : ℕ → Text
unfolding digits_onto
decimal n = digits_onto (suc n) n []

-- `%d` of an `int`
unfoldable pub itoa : ℤ → Text
unfolding decimal
itoa (pos n) = decimal n
itoa (negsuc n) = b'-' ∷ decimal (suc n)
