-- ===== src/Base/Result.antt =====
-- Go's `(value, error)` returns as values.
use mathlib.Core.Bool.{Bool, true, false}
use syncctl.Base.Logic.{if◌then◌else◌}
use mathlib.Core.Path.{◌≡◌, refl}

pub data Result {ℓ κ} (E : Type ℓ) (A : Type κ) : Type (ℓ ⊔ κ) where
  ok : A → Result E A
  err : E → Result E A

module _ {ℓ κ μ} {E : Type ℓ} {A : Type κ} {B : Type μ} where
  infixl 5 ◌>>=◌ ◌>>◌
  abbrev pub ◌>>=◌ : Result E A → (A → Result E B) → Result E B
  ok value >>= go = go value
  err error >>= go = err error

  -- The sequence that forgets the first value.
  abbrev pub ◌>>◌ : Result E A → Result E B → Result E B
  first >> second = first >>= λ (_ : A). second

  -- What a run of two parts that succeeds says of each of them.
  pub >>=-eq-ok :
      (first : Result E A) (go : A → Result E B) {out : B}
      → (first >>= go) ≡ ok out
      → (value : A) × (first ≡ ok value) × (go value ≡ ok out)
  >>=-eq-ok (ok value) go ran = (value, refl, ran)
  >>=-eq-ok (err error) go ran = cc

-- A guard that returns an error was passed by every run that succeeds.
pub guard-eq-ok {ℓ κ} :
    {E : Type ℓ} {A : Type κ} (b : Bool) (e : E) {m : Result E A} {a : A}
    → (if b then err e else m) ≡ ok a
    → (b ≡ false) × (m ≡ ok a)
guard-eq-ok true e h = cc
guard-eq-ok false e h = (refl, h)

pub ok-injective {ℓ κ} :
    {E : Type ℓ} {A : Type κ} {a b : A} → ◌≡◌ {A = Result E A} (ok a) (ok b) → a ≡ b
ok-injective h = cc

abbrev pub succeeds {ℓ κ} : {E : Type ℓ} {A : Type κ} → Result E A → Bool
succeeds (ok _) = true
succeeds (err _) = false

-- Wraps the error.
module _ {ℓ κ μ} {E : Type ℓ} {F : Type κ} {A : Type μ} where
  abbrev pub map_error : (E → F) → Result E A → Result F A
  map_error g (ok a) = ok a
  map_error g (err e) = err (g e)

  pub map_error-eq-ok : (g : E → F) (m : Result E A) {a : A} → map_error g m ≡ ok a → m ≡ ok a
  map_error-eq-ok g (ok a) h = cc
  map_error-eq-ok g (err e) h = cc
