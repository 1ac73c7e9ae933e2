-- ===== src/Base/Strings.antt =====
-- The functions of Go's `strings` package that the program calls, on bytes.
pub mod Laws
use syncctl.Base.Logic.{leb, ◌==◌, if◌then◌else◌}
use syncctl.Base.Bytes.{Text, is_empty}
use syncctl.Base.Lists.{any, length}
use Prim.Native.Nat.{ℕ, zero, suc, ◌+◌}
use mathlib.Core.Bool.{Bool, true, false, ◌&&◌, ◌||◌}
use mathlib.Core.Option.{Option, none, some}
use mathlib.Core.List.{List, [], ◌∷◌, ◌++◌, reverse}

-- `strings.HasPrefix(s, p)`
unfoldable pub has_prefix : Text → Text → Bool
has_prefix s [] = true
has_prefix [] (c ∷ p) = false
has_prefix (d ∷ s) (c ∷ p) = d == c && has_prefix s p

-- `strings.Contains(s, part)`
unfoldable pub contains : Text → Text → Bool
unfolding has_prefix
contains [] part = is_empty part
contains (c ∷ s) part = has_prefix (c ∷ s) part || contains s part

-- `strings.ContainsRune(s, r)` and `strings.Contains(s, r)` for a one-byte needle
unfoldable pub contains_byte : Text → ℕ → Bool
contains_byte s c = any (λ d. d == c) s

-- `strings.ContainsAny(s, chars)`
unfoldable pub contains_any : Text → Text → Bool
unfolding contains_byte
contains_any s chars = any (λ d. contains_byte chars d) s

-- `strings.Count(s, c)` for a one-byte needle
unfoldable pub count_byte : Text → ℕ → ℕ
count_byte [] c = 0
count_byte (d ∷ s) c = (if d == c then 1 else 0) + count_byte s c

-- `strings.Index(s, c)`, as the parts before and behind the first `c`
unfoldable pub cut : Text → ℕ → Option (Text × Text)
cut [] c = none
cut (d ∷ s) c =
    let rest = cut s c in
    if d == c then some ([], s) else elim rest [ none ↦ none | some (a, b) ↦ some (d ∷ a, b) ]

-- `strings.LastIndex(s, c)`, as the parts before and behind the last `c`
unfoldable pub cut_last : Text → ℕ → Option (Text × Text)
cut_last [] c = none
cut_last (d ∷ s) c = elim (cut_last s c) [
  | some (a, b) ↦ some (d ∷ a, b)
  | none ↦ if d == c then some ([], s) else none
]

-- `strings.Split(s, c)` for a one-byte separator
abbrev pub cons_first : ℕ → List Text → List Text
cons_first d [] = (d ∷ []) ∷ []
cons_first d (w ∷ ws) = (d ∷ w) ∷ ws

unfoldable pub split : Text → ℕ → List Text
split [] c = [] ∷ []
split (d ∷ s) c = if d == c then [] ∷ split s c else cons_first d (split s c)

-- `strings.Join(parts, sep)`
unfoldable pub join : List Text → Text → Text
join [] sep = []
join (w ∷ []) sep = w
join (w ∷ v ∷ ws) sep = w ++ (sep ++ join (v ∷ ws) sep)

-- `unicode.IsSpace` on the code points of one, two and three bytes of UTF-8
unfoldable pub is_space : ℕ → Bool
is_space a = a == 0x20 || a == 0x09 || a == 0x0a || a == 0x0b || a == 0x0c || a == 0x0d

is_space_two : ℕ → ℕ → Bool
is_space_two a b = a == 0xc2 && (b == 0x85 || b == 0xa0)

is_space_three : ℕ → ℕ → ℕ → Bool
is_space_three a b c =
    (a == 0xe1 && b == 0x9a && c == 0x80)
    || (a == 0xe2
        && ((b == 0x80 && ((leb 0x80 c && leb c 0x8a) || c == 0xa8 || c == 0xa9 || c == 0xaf))
            || (b == 0x81 && c == 0x9f)))
    || (a == 0xe3 && b == 0x80 && c == 0x80)

-- What follows a white-space character at the front of the text. With `back` the text is read
-- from its end, and so are the bytes of the character.
unfoldable pub strip_space : Bool → Text → Option Text
unfolding is_space is_space_two is_space_three
strip_space back [] = none
strip_space back (a ∷ []) = if is_space a then some [] else none
strip_space back (a ∷ b ∷ []) =
    if is_space a
    then some (b ∷ [])
    else if (if back then is_space_two b a else is_space_two a b)
    then some []
    else none
strip_space back (a ∷ b ∷ c ∷ s) =
    if is_space a
    then some (b ∷ c ∷ s)
    else if (if back then is_space_two b a else is_space_two a b)
    then some (c ∷ s)
    else if (if back then is_space_three c b a else is_space_three a b c)
    then some s
    else none

-- Strips white space as long as there is some; each round shortens the text, so its length is
-- fuel enough.
unfoldable pub trim_left : Bool → ℕ → Text → Text
unfolding strip_space
trim_left back zero s = s
trim_left back (suc n) s = elim (strip_space back s) [ none ↦ s | some r ↦ trim_left back n r ]

-- `strings.TrimSpace(s)`
unfoldable pub trim_space : Text → Text
unfolding trim_left
trim_space s =
    let front = trim_left false (length s) s in
    reverse (trim_left true (length front) (reverse front))

-- `strings.TrimPrefix(s, c)` for a one-byte prefix
unfoldable pub trim_prefix_byte : Text → ℕ → Text
trim_prefix_byte [] c = []
trim_prefix_byte (d ∷ s) c = if d == c then s else d ∷ s

-- What follows a prefix, if the text begins with it.
unfoldable pub strip_prefix : Text → Text → Option Text
strip_prefix s [] = some s
strip_prefix [] (c ∷ p) = none
strip_prefix (d ∷ s) (c ∷ p) = let rest = strip_prefix s p in if d == c then rest else none
