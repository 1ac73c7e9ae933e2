-- ===== src/Registry/Runes.antt =====
-- Go's `range` over a string, with `WriteRune`: a rune is written as its bytes in UTF-8, and a byte that
-- begins none as those of U+FFFD.
use syncctl.Base.{
  ℕ, zero, suc, ◌-◌, Bool, true, false, ◌&&◌, [], ◌∷◌, ◌++◌, ◌≡◌, refl, ap, arith, ltb, leb, ◌==◌,
  Text, if◌then◌else◌, Bool-cases, inl, inr,
}

abbrev within : ℕ → ℕ → ℕ → Bool
within low high c = leb low c && leb c high

-- Whether a text has a byte of the range, as its first or at a place behind it.
unfoldable pub byte_at : ℕ → ℕ → ℕ → Text → Bool
byte_at i low high [] = false
byte_at zero low high (c ∷ s) = within low high c
byte_at (suc i) low high (c ∷ s) = byte_at i low high s

-- The ranges for the byte behind the first, by the first.
abbrev second_low : ℕ → ℕ
second_low c = if c == 0xe0 then 0xa0 else if c == 0xf0 then 0x90 else 0x80

abbrev second_high : ℕ → ℕ
second_high c = if c == 0xed then 0x9f else if c == 0xf4 then 0x8f else 0xbf

-- How many bytes follow the first of a rune, plus one; 0 where it begins none.
unfoldable pub rune_width : ℕ → Text → ℕ
unfolding byte_at
rune_width c s =
    if ltb c 0x80
    then 1
    else if within 0xc2 0xdf c
    then (if byte_at 0 0x80 0xbf s then 2 else 0)
    else if within 0xe0 0xef c
    then (if byte_at 0 (second_low c) (second_high c) s && byte_at 1 0x80 0xbf s then 3 else 0)
    else if within 0xf0 0xf4 c
    then (if byte_at 0 (second_low c) (second_high c) s
          && (byte_at 1 0x80 0xbf s && byte_at 2 0x80 0xbf s)
        then 4
        else 0)
    else 0

-- What is written, with the number of bytes that are left of the rune at hand.
unfoldable pub written : ℕ → Text → Text
unfolding rune_width
written left [] = []
written (suc left) (c ∷ s) = c ∷ written left s
written zero (c ∷ s) =
    let width = rune_width c s in
    let kept = c ∷ written (width - 1) s in
    let replaced = 0xef ∷ 0xbf ∷ 0xbd ∷ written 0 s in if width == 0 then replaced else kept

-- A text whose bytes are whole runes, behind those that are left of the first.
unfoldable pub is_utf8 : ℕ → Text → Bool
unfolding rune_width
is_utf8 left [] = left == 0
is_utf8 (suc left) (c ∷ s) = is_utf8 left s
is_utf8 zero (c ∷ s) =
    let width = rune_width c s in
    let rest = is_utf8 (width - 1) s in if width == 0 then false else rest

byte_at-append :
    (i low high : ℕ) (s rest : Text)
    → byte_at i low high s ≡ true
    → byte_at i low high (s ++ rest) ≡ true
unfolding byte_at
byte_at-append i low high [] rest h = cc
byte_at-append zero low high (c ∷ s) rest h = h
byte_at-append (suc i) low high (c ∷ s) rest h = byte_at-append i low high s rest h

-- What follows a rune does not change its width.
rune_width-append :
    (c : ℕ) (s rest : Text)
    → (rune_width c s == 0) ≡ false
    → rune_width c (s ++ rest) ≡ rune_width c s
unfolding rune_width
rune_width-append c s rest h = ground (
  arith,
  byte_at-append 0 0x80 0xbf s rest,
  byte_at-append 0 (second_low c) (second_high c) s rest,
  byte_at-append 1 0x80 0xbf s rest,
  byte_at-append 2 0x80 0xbf s rest,
)

-- Whole runes are written as they are.
pub written-utf8 :
    (left : ℕ) (s rest : Text)
    → is_utf8 left s ≡ true
    → written left (s ++ rest) ≡ s ++ written 0 rest
unfolding written is_utf8
written-utf8 zero [] rest h = refl
written-utf8 (suc left) [] rest h = ground arith
written-utf8 (suc left) (c ∷ s) rest h = ap (λ t. c ∷ t) (written-utf8 left s rest h)
written-utf8 zero (c ∷ s) rest h = elim (Bool-cases (rune_width c s == 0)) [
  | inl invalid ↦ let h' = rw invalid at h in cc
  | inr whole ↦
      rw (rune_width-append c s rest whole, whole)
        (ap (λ t. c ∷ t) (written-utf8 (rune_width c s - 1) s rest (rw whole at h)))
]
