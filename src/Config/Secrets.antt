-- ===== src/Config/Secrets.antt =====
-- internal/config/config.go: the walk over the secrets of a configuration, and the references to
-- environment variables. What reflection sees of a value is a tree.
pub mod References
pub mod Resolve
use syncctl.Base.{
  ℕ, zero, suc, ◌+◌, Bool, true, false, not, ◌&&◌, ◌||◌, Option, none, some, List, [], ◌∷◌, ◌++◌,
  leb, ◌==◌, length, Text, codes, is_empty, if◌then◌else◌,
}
use syncctl.Base.Numbers.{decimal}
use syncctl.Base.Result.{Result, ok, err}
use syncctl.Base.Strings.{has_prefix, strip_prefix}

-- The kinds of `reflect.Value` that are told apart. A field has whether it is exported, its name in
-- YAML and whether its tag says `env:"required"`.
mutual
  pub data Value : Type 0 where
    str : Text → Value
    nil_pointer : Value
    pointer : Value → Value
    slice : Items → Value
    mapping : Items → Value
    struct : Fields → Value
    other : Value

  pub data Items : Type 0 where
    end : Items
    item : Value → Items → Items

  pub data Fields : Type 0 where
    stop : Fields
    field : Bool → Text → Bool → Value → Fields → Fields

-- `[A-Z_]` and `[A-Z0-9_]`
abbrev name_start : ℕ → Bool
name_start c = (leb b'A' c && leb c b'Z') || c == b'_'

abbrev name_char : ℕ → Bool
name_char c = name_start c || (leb b'0' c && leb c b'9')

abbrev cons_name : ℕ → Option (Text × Text) → Option (Text × Text)
cons_name c none = none
cons_name c (some (name, rest)) = some (c ∷ name, rest)

-- `[A-Z0-9_]*\}`: the name, and what follows.
name_tail : Text → Option (Text × Text)
name_tail [] = none
name_tail (c ∷ s) =
    let more = cons_name c (name_tail s) in
    if c == b'}' then some ([], s) else if name_char c then more else none

name_at : Text → Option (Text × Text)
unfolding name_tail
name_at [] = none
name_at (c ∷ s) = if name_start c then cons_name c (name_tail s) else none

-- `envRefRe` at the start of a text
unfoldable pub ref_at : Text → Option (Text × Text)
unfolding name_at strip_prefix
ref_at s = elim (strip_prefix s (codes "${")) [ none ↦ none | some rest ↦ name_at rest ]

-- `envRefOnlyRe`
abbrev pub whole : Option (Text × Text) → Bool
whole none = false
whole (some (name, rest)) = is_empty rest

unfoldable pub is_reference : Text → Bool
unfolding ref_at
is_reference s = whole (ref_at s)

-- `joinPath`
unfoldable pub join_path : Text → Text → Text
join_path parent child = if is_empty parent then child else parent ++ (b'.' ∷ child)

-- `checkSecretField`: the path of a literal secret is an error.
unfoldable pub check_secret : Text → Text → List Text
unfolding is_reference
check_secret value path = if is_empty value || is_reference value then [] else path ∷ []

-- A required field that is a string is checked as a secret; what the walk into it found counts for
-- any other.
unfoldable pub field_errors : Bool → Value → Text → List Text → List Text
unfolding check_secret
field_errors true (str s) path walked = check_secret s path
field_errors required v path walked = walked

-- `walkSecretFields`
unfoldable mutual
  unfolding field_errors join_path

  pub walk : Value → Text → List Text
  walk (pointer v) path = walk v path
  walk (slice vs) path = walk_items vs 0 path
  walk (struct fs) path = walk_fields fs path
  walk v path = []

  pub walk_items : Items → ℕ → Text → List Text
  walk_items end i path = []
  walk_items (item v vs) i path =
      walk v (path ++ (b'[' ∷ (decimal i ++ codes "]"))) ++ walk_items vs (suc i) path

  pub walk_fields : Fields → Text → List Text
  walk_fields stop path = []
  walk_fields (field exported name required v fs) path =
      let child = join_path path name in
      let here = field_errors required v child (walk v child) in
      let rest = walk_fields fs path in if exported then here ++ rest else rest

module _ (env : Text → Option Text) where
  -- `os.LookupEnv`; an empty value counts as missing, and the reference then stays.
  unfoldable pub put_value : Text → Option Text → List Text × Text → List Text × Text
  put_value name none (missing, text) = (name ∷ missing, codes "${" ++ (name ++ (b'}' ∷ text)))
  put_value name (some value) (missing, text) =
      if is_empty value
      then (name ∷ missing, codes "${" ++ (name ++ (b'}' ∷ text)))
      else (missing, value ++ text)

  abbrev put_byte : ℕ → List Text × Text → List Text × Text
  put_byte c (missing, text) = (missing, c ∷ text)

  -- One byte or one reference, with what becomes of the text behind it.
  unfoldable pub replace_step :
      ℕ → Text → Option (Text × Text) → (Text → List Text × Text) → List Text × Text
  unfolding put_value
  replace_step c s none go = put_byte c (go s)
  replace_step c s (some (name, rest)) go = put_value name (env name) (go rest)

  -- `ReplaceAllStringFunc`, from left to right. Each round takes at least one byte, so the length of
  -- the text is fuel enough.
  unfoldable pub replace_refs : ℕ → Text → List Text × Text
  unfolding replace_step ref_at
  replace_refs zero s = ([], s)
  replace_refs (suc fuel) [] = ([], [])
  replace_refs (suc fuel) (c ∷ s) = replace_step c s (ref_at (c ∷ s)) (λ t. replace_refs fuel t)

  -- `strings.Contains(s, "${")`
  unfoldable pub has_ref : Text → Bool
  unfolding has_prefix
  has_ref [] = false
  has_ref (c ∷ s) = has_prefix (c ∷ s) (codes "${") || has_ref s

  all_found : List Text × Text → Result (List Text) Text
  all_found ([], text) = ok text
  all_found (name ∷ names, text) = err (name ∷ names)

  -- `expandEnvString`
  unfoldable pub expand_env : Text → Result (List Text) Text
  unfolding has_ref replace_refs all_found
  expand_env s = if not (has_ref s) then ok s else all_found (replace_refs (length s) s)
