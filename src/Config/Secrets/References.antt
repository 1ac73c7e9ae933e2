-- ===== src/Config/Secrets/References.antt =====
-- config.go, `walkSecretFields` and `expandEnvString` together.
use mathlib.Core.List.{append-nil}
use syncctl.Base.{
  is_empty-eq, append-none, ℕ, zero, suc, Bool, true, false, ◌||◌, Option, none, some, List, [],
  ◌∷◌, length, ◌≡◌, ◌≢◌, refl, sym, ◌∙◌, ap, ◌⊎◌, inl, inr, arith, Text, codes, is_empty,
  Bool-cases,
}
use syncctl.Base.Result.{ok}
use syncctl.Base.Strings.{has_prefix, strip_prefix}
use syncctl.Config.Secrets.{
  Value, str, pointer, slice, struct, Items, item, Fields, field, whole, ref_at, is_reference,
  join_path, check_secret, field_errors, walk, walk_items, walk_fields, put_value, replace_step,
  replace_refs, has_ref, expand_env,
}

-- The strings of required fields, wherever pointers, slices and structs lead.
mutual
  pub data SecretIn : Value → Text → Type 0 where
    in_pointer : {v : Value} {s : Text} → SecretIn v s → SecretIn (pointer v) s
    in_slice : {vs : Items} {s : Text} → SecretInItems vs s → SecretIn (slice vs) s
    in_struct : {fs : Fields} {s : Text} → SecretInFields fs s → SecretIn (struct fs) s

  pub data SecretInItems : Items → Text → Type 0 where
    first : {v : Value} {vs : Items} {s : Text} → SecretIn v s → SecretInItems (item v vs) s
    further : {v : Value} {vs : Items} {s : Text} → SecretInItems vs s → SecretInItems (item v vs) s

  pub data SecretInFields : Fields → Text → Type 0 where
    here : {name s : Text} {fs : Fields} → SecretInFields (field true name true (str s) fs) s
    within :
        {name s : Text} {required : Bool} {v : Value} {fs : Fields}
        → SecretIn v s
        → SecretInFields (field true name required v fs) s
    later :
        {name s : Text} {exported required : Bool} {v : Value} {fs : Fields}
        → SecretInFields fs s
        → SecretInFields (field exported name required v fs) s

abbrev IsSafe : Text → Type 0
IsSafe s = (is_empty s || is_reference s) ≡ true

check_secret-none : (s path : Text) → check_secret s path ≡ [] → IsSafe s
unfolding check_secret
check_secret-none s path h = ground arith

-- A value with a secret within is no string, so that the walk into it counts.
field_errors-within :
    {v : Value} {s : Text} (required : Bool) (path : Text) (walked : List Text)
    → SecretIn v s
    → field_errors required v path walked ≡ walked
unfolding field_errors
field_errors-within true path walked (in_pointer h) = refl
field_errors-within true path walked (in_slice h) = refl
field_errors-within true path walked (in_struct h) = refl
field_errors-within false path walked (in_pointer h) = refl
field_errors-within false path walked (in_slice h) = refl
field_errors-within false path walked (in_struct h) = refl

mutual
  unfolding walk walk_items walk_fields

  walk-none : {v : Value} {s : Text} (path : Text) → walk v path ≡ [] → SecretIn v s → IsSafe s
  walk-none path h (in_pointer inner) = walk-none path h inner
  walk-none path h (in_slice inner) = walk_items-none 0 path h inner
  walk-none path h (in_struct inner) = walk_fields-none path h inner

  walk_items-none :
      {vs : Items} {s : Text} (i : ℕ) (path : Text)
      → walk_items vs i path ≡ []
      → SecretInItems vs s
      → IsSafe s
  walk_items-none i path h (first {v} {vs} inner) = walk-none _ (append-none (walk v _) _ h).0 inner
  walk_items-none i path h (further {v} {vs} inner) =
      walk_items-none (suc i) path (append-none (walk v _) _ h).1 inner

  walk_fields-none :
      {fs : Fields} {s : Text} (path : Text)
      → walk_fields fs path ≡ []
      → SecretInFields fs s
      → IsSafe s
  walk_fields-none path h (here {name} {s} {fs}) =
      check_secret-none s (join_path path name) (append-none (check_secret s _) _ h).0
  walk_fields-none path h (within {name} {s} {required} {v} {fs} inner) =
      walk-none (join_path path name)
        (sym (
            field_errors-within required (join_path path name) (walk v (join_path path name)) inner)
          ∙ (append-none (field_errors required v _ _) _ h).0)
        inner
  walk_fields-none path h (later {exported = true} {required} {v} inner) =
      walk_fields-none path (append-none (field_errors required v _ _) _ h).1 inner
  walk_fields-none path h (later {exported = false} inner) = walk_fields-none path h inner

or_second : (a b : Bool) → (a || b) ≡ true → a ≡ false → b ≡ true
or_second a b h k = ground arith

whole-reference :
    (o : Option (Text × Text)) → whole o ≡ true → (name : Text) × (o ≡ some (name, []))
whole-reference none h = cc
whole-reference (some (name, [])) h = (name, refl)
whole-reference (some (name, c ∷ rest)) h = cc

is_reference-ref_at :
    (s : Text) → is_reference s ≡ true → (name : Text) × (ref_at s ≡ some (name, []))
unfolding is_reference
is_reference-ref_at s h = whole-reference (ref_at s) h

ref_at-prefix :
    (s : Text) {found : Text × Text} → ref_at s ≡ some found → has_prefix s (codes "${") ≡ true
unfolding ref_at has_prefix strip_prefix
ref_at-prefix [] h = cc
ref_at-prefix (c ∷ []) h = ground arith
ref_at-prefix (c ∷ d ∷ s) h = ground arith

empty_ref_at : {found : Text × Text} → ref_at [] ≢ some found
unfolding ref_at strip_prefix
empty_ref_at e = cc

module _ (env : Text → Option Text) where
  has_ref-head : (s : Text) → has_prefix s (codes "${") ≡ true → has_ref env s ≡ true
  unfolding has_ref
  has_ref-head [] h = h
  has_ref-head (c ∷ s) h = rw h refl

  replace_refs-end : (fuel : ℕ) → replace_refs env fuel [] ≡ ([], [])
  unfolding replace_refs
  replace_refs-end zero = refl
  replace_refs-end (suc fuel) = refl

  put_value-full :
      (name value : Text)
      → is_empty value ≡ false
      → put_value env name (some value) ([], []) ≡ ([], value)
  unfolding put_value
  put_value-full name value full = rw full (ap (λ x. ([], x)) (append-nil value))

  replace_refs-reference :
      (c : ℕ) (s : Text) (fuel : ℕ) {name value : Text}
      → ref_at (c ∷ s) ≡ some (name, [])
      → env name ≡ some value
      → is_empty value ≡ false
      → replace_refs env (suc fuel) (c ∷ s) ≡ ([], value)
  unfolding replace_refs replace_step
  replace_refs-reference c s fuel {name} {value} found set full =
      ap (λ o. replace_step env c s o (λ t. replace_refs env fuel t)) found
      ∙ ap (λ o. put_value env name o (replace_refs env fuel [])) set
      ∙ ap (put_value env name (some value)) (replace_refs-end fuel)
      ∙ put_value-full name value full

  -- A value that is one reference becomes the variable, and nothing in the variable is expanded.
  expand_env-reference :
      (s : Text) {name value : Text}
      → ref_at s ≡ some (name, [])
      → env name ≡ some value
      → is_empty value ≡ false
      → expand_env env s ≡ ok value
  unfolding expand_env
  expand_env-reference [] found set full = absurd (empty_ref_at found)
  expand_env-reference (c ∷ s) found set full =
      rw
        (
          has_ref-head (c ∷ s) (ref_at-prefix (c ∷ s) found),
          replace_refs-reference c s (length s) found set full,
        )
        refl

  -- Where the walk finds no literal secret, each secret string is empty, or it is one reference,
  -- which is replaced by exactly the value of its variable, if that is set and not empty.
  pub walk-Resolved :
      {v : Value} {s : Text} (path : Text)
      → walk v path ≡ []
      → SecretIn v s
      → (s ≡ [])
        ⊎ ((name : Text) × (ref_at s ≡ some (name, []))
            × ((value : Text)
                → env name ≡ some value
                → is_empty value ≡ false
                → expand_env env s ≡ ok value))
  walk-Resolved {v} {s} path clean inner = elim (Bool-cases (is_empty s)) [
    | inl empty ↦ inl (is_empty-eq s empty)
    | inr set ↦
        let (name, found) =
          is_reference-ref_at s (or_second _ (is_reference s) (walk-none path clean inner) set) in
        inr (name, found, λ value stored full. expand_env-reference s found stored full)
  ]
