-- ===== src/Base/Strings/Laws.antt =====
-- Laws of the string functions on texts of known characters.
use mathlib.Core.List.{reverse-reverse, reverse-cons, reverse-append, reverse}
use Prim.Native.Nat.{ℕ, zero, suc, ◌+◌}
use mathlib.Core.Path.{◌≡◌, refl, ◌∙◌, ap}
use mathlib.Core.Bool.{Bool, true, false, ◌&&◌, not}
use mathlib.Core.Option.{none, some}
use mathlib.Core.List.{List, [], ◌∷◌, ◌++◌}
use native.Mathlib.Omega.{arith}
use syncctl.Base.Logic.{ltb, leb, ◌==◌, and_true}
use syncctl.Base.Lists.{length, all, all-append}
use syncctl.Base.Bytes.{Text}
use syncctl.Base.Strings.{
  contains_byte, contains_any, count_byte, cut, cut_last, strip_space, trim_left, trim_space,
}

-- A byte of ASCII that is not white space.
unfoldable pub visible : ℕ → Bool
visible c = leb 0x21 c && ltb c 0x80

-- The byte does not occur.
abbrev pub avoids : ℕ → Text → Bool
avoids c = all (λ d. not (d == c))

pub all_mono {ℓ} :
    {A : Type ℓ} {p q : A → Bool} (xs : List A)
    → ((x : A) → p x ≡ true → q x ≡ true)
    → all p xs ≡ true
    → all q xs ≡ true
all_mono [] f h = refl
all_mono {p} {q} (x ∷ xs) f h =
    let (hx, hxs) = and_true (p x) (all p xs) h in ground (arith, f x hx, all_mono xs f hxs)

pub all-reverse : (p : ℕ → Bool) (s : Text) → all p s ≡ true → all p (reverse s) ≡ true
all-reverse p [] h = refl
all-reverse p (c ∷ s) h =
    let (hc, hs) = and_true (p c) (all p s) h in
    rw (reverse-cons, all-append) (ground (arith, all-reverse p s hs))

strip_space-visible :
    (back : Bool) (c : ℕ) (s : Text) → visible c ≡ true → strip_space back (c ∷ s) ≡ none
unfolding visible strip_space
strip_space-visible true c [] h = ground arith
strip_space-visible true c (a ∷ []) h = ground arith
strip_space-visible true c (a ∷ b ∷ s) h = ground arith
strip_space-visible false c [] h = ground arith
strip_space-visible false c (a ∷ []) h = ground arith
strip_space-visible false c (a ∷ b ∷ s) h = ground arith

trim_left-visible : (back : Bool) (n : ℕ) (s : Text) → all visible s ≡ true → trim_left back n s ≡ s
unfolding trim_left
trim_left-visible back zero s h = refl
trim_left-visible back (suc n) [] h = unfold strip_space in refl
trim_left-visible back (suc n) (c ∷ s) h =
    let (hc, hs) = and_true (visible c) (all visible s) h in
    rw (strip_space-visible back c s hc, trim_left)

trim_left-front :
    (back : Bool) (n c : ℕ) (s : Text) → visible c ≡ true → trim_left back n (c ∷ s) ≡ c ∷ s
unfolding trim_left
trim_left-front back zero c s h = refl
trim_left-front back (suc n) c s h = rw (strip_space-visible back c s h, trim_left)

-- A text without white space is trimmed to itself.
pub trim_space-visible : (s : Text) → all visible s ≡ true → trim_space s ≡ s
unfolding trim_space
trim_space-visible s h = rw (trim_left-visible false (length s) s h) (
    ap reverse (trim_left-visible true (length s) (reverse s) (all-reverse visible s h))
    ∙ reverse-reverse s)

-- So is a text that begins and ends with such a byte.
pub trim_space-ends :
    (c : ℕ) (s : Text) (d : ℕ)
    → visible c ≡ true
    → visible d ≡ true
    → trim_space (c ∷ (s ++ d ∷ [])) ≡ c ∷ (s ++ d ∷ [])
unfolding trim_space
trim_space-ends c s d hc hd =
    let whole = c ∷ (s ++ d ∷ []) in
    let turned : reverse whole ≡ d ∷ reverse (c ∷ s) = reverse-append (c ∷ s) (d ∷ []) in
    let inner : trim_left true (length whole) (reverse whole) ≡ reverse whole =
      rw turned (trim_left-front true (length whole) d (reverse (c ∷ s)) hd) in
    rw (trim_left-front false (length whole) c (s ++ d ∷ []) hc)
      (ap reverse inner ∙ reverse-reverse whole)

pub contains_byte-avoids : (s : Text) (c : ℕ) → avoids c s ≡ true → contains_byte s c ≡ false
unfolding contains_byte
contains_byte-avoids [] c h = refl
contains_byte-avoids (d ∷ s) c h = ground (arith, contains_byte-avoids s c)

pub contains_any-all :
    (s chars : Text)
    → all (λ c. not (contains_byte chars c)) s ≡ true
    → contains_any s chars ≡ false
unfolding contains_any
contains_any-all [] chars h = refl
contains_any-all (d ∷ s) chars h = ground (arith, contains_any-all s chars)

pub count_byte-avoids : (s : Text) (c : ℕ) → avoids c s ≡ true → count_byte s c ≡ 0
unfolding count_byte
count_byte-avoids [] c h = refl
count_byte-avoids (d ∷ s) c h = ground (arith, count_byte-avoids s c)

pub count_byte-append :
    (s t : Text) (c : ℕ) → count_byte (s ++ t) c ≡ count_byte s c + count_byte t c
unfolding count_byte
count_byte-append [] t c = omega arith
count_byte-append (d ∷ s) t c = omega (arith, count_byte-append s t c)

-- The first occurrence is where a text without the byte ends.
pub cut-avoids : (a b : Text) (c : ℕ) → avoids c a ≡ true → cut (a ++ (c ∷ b)) c ≡ some (a, b)
unfolding cut
cut-avoids [] b c h = ground arith
cut-avoids (d ∷ a) b c h = ground (arith, cut-avoids a b c)

pub cut_last-none : (s : Text) (c : ℕ) → avoids c s ≡ true → cut_last s c ≡ none
unfolding cut_last
cut_last-none [] c h = refl
cut_last-none (d ∷ s) c h = ground (arith, cut_last-none s c)

-- The last occurrence is where a text without the byte begins.
pub cut_last-avoids :
    (a b : Text) (c : ℕ) → avoids c b ≡ true → cut_last (a ++ (c ∷ b)) c ≡ some (a, b)
unfolding cut_last
cut_last-avoids [] b c h = rw (cut_last-none b c h) (ground arith)
cut_last-avoids (d ∷ a) b c h = rw (cut_last-avoids a b c h)
