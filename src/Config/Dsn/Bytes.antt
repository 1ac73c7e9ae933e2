-- ===== src/Config/Dsn/Bytes.antt =====
-- config.go, `quoteLibPQValue`: the steps of the reader of libpq on single bytes and on one value.
use mathlib.Core.List.{append-nil, append_assoc}
use syncctl.Base.{
  ℕ, Bool, true, false, not, ◌&&◌, ◌||◌, [], ◌∷◌, ◌++◌, ◌≡◌, refl, ◌∙◌, inl, inr, arith, all, Text,
  codes, is_empty, ◌==◌, Bool-cases, and_true,
}
use syncctl.Base.Strings.{contains_any, contains_byte}
use syncctl.Config.Dsn.Conninfo.{
  Mode, between, in_key, before_value, bare, quoted, Reader, c_space, pushed, step_in, read,
}
use syncctl.Config.Dsn.{escape_value}

abbrev pub key_byte : ℕ → Bool
key_byte c = not (c_space c) && not (c == b'=')

abbrev pub special_bytes : Text
special_bytes = codes " '\\"

-- A value that is put into quotes, and one without any of C's blanks, which needs none.
abbrev pub readable : Text → Bool
readable v = is_empty v || contains_any v special_bytes || all (λ c. not (c_space c)) v

unfoldable pub plain : ℕ → Bool
plain c = not (c_space c) && not (c == b'\'') && not (c == b'\\')

-- The reader within a keyword, a value and so on.
abbrev pub within : Mode → Reader → Reader
within mode l = record l { mode = mode }

read_equals :
    (l : Reader) (rest : Text)
    → read (within in_key l) (b'=' ∷ rest)
      ≡ read (record l { mode = before_value; value = [] }) rest
unfolding read step_in
read_equals l rest = refl

pub read_key :
    (l : Reader) (c : ℕ) (rest : Text)
    → key_byte c ≡ true
    → read (within in_key l) (c ∷ rest)
      ≡ read (within in_key (record l { key = l.key ++ c ∷ [] })) rest
unfolding read step_in
read_key l c rest h = ground arith

pub read-key :
    (k : Text) (l : Reader) (rest : Text)
    → all key_byte k ≡ true
    → read (within in_key l) (k ++ b'=' ∷ rest)
      ≡ read (record l { mode = before_value; key = l.key ++ k; value = [] }) rest
read-key [] l rest h = rw (read_equals, append-nil) refl
read-key (c ∷ k) l rest h =
    let (hc, hk) = and_true (key_byte c) (all key_byte k) h in
    read_key l c (k ++ b'=' ∷ rest) hc
    ∙ read-key k (record l { key = l.key ++ c ∷ [] }) rest hk
    ∙ rw append_assoc

pub read_open :
    (l : Reader) (c : ℕ) (rest : Text)
    → key_byte c ≡ true
    → read (within between l) (c ∷ rest) ≡ read (within in_key (record l { key = c ∷ [] })) rest
unfolding read step_in
read_open l c rest h = ground arith

read_bare :
    (l : Reader) (c : ℕ) (rest : Text)
    → plain c ≡ true
    → read (within bare l) (c ∷ rest)
      ≡ read (within bare (record l { value = l.value ++ c ∷ [] })) rest
unfolding read step_in plain
read_bare l c rest h = ground arith

pub read_first :
    (l : Reader) (c : ℕ) (rest : Text)
    → plain c ≡ true
    → read (record l { mode = before_value; value = [] }) (c ∷ rest)
      ≡ read (within bare (record l { value = c ∷ [] })) rest
unfolding read step_in plain
read_first l c rest h = ground arith

pub read-bare :
    (v : Text) (l : Reader) (rest : Text)
    → all plain v ≡ true
    → read (within bare l) (v ++ rest) ≡ read (within bare (record l { value = l.value ++ v })) rest
read-bare [] l rest h = rw append-nil
read-bare (c ∷ v) l rest h =
    let (hc, hv) = and_true (plain c) (all plain v) h in
    read_bare l c (v ++ rest) hc
    ∙ read-bare v (record l { value = l.value ++ c ∷ [] }) rest hv
    ∙ rw append_assoc

read_quoted :
    (l : Reader) (c : ℕ) (rest : Text)
    → (c == b'\\' || c == b'\'') ≡ false
    → read (within quoted l) (c ∷ rest)
      ≡ read (within quoted (record l { value = l.value ++ c ∷ [] })) rest
unfolding read step_in
read_quoted l c rest h = ground arith

read_escaped :
    (l : Reader) (c : ℕ) (rest : Text)
    → read (within quoted l) (b'\\' ∷ c ∷ rest)
      ≡ read (within quoted (record l { value = l.value ++ c ∷ [] })) rest
unfolding read step_in
read_escaped l c rest = refl

read-escape_value :
    (v : Text) (l : Reader) (rest : Text)
    → read (within quoted l) (escape_value v ++ rest)
      ≡ read (within quoted (record l { value = l.value ++ v })) rest
unfolding escape_value
read-escape_value [] l rest = rw append-nil
read-escape_value (c ∷ v) l rest = elim (Bool-cases (c == b'\\' || c == b'\'')) [
  | inl same ↦ rw same (
      read_escaped l c (escape_value v ++ rest)
      ∙ read-escape_value v (record l { value = l.value ++ c ∷ [] }) rest
      ∙ rw append_assoc)
  | inr other ↦ rw other (
      read_quoted l c (escape_value v ++ rest) other
      ∙ read-escape_value v (record l { value = l.value ++ c ∷ [] }) rest
      ∙ rw append_assoc)
]

-- A value in quotes, between its quotes.
pub read-in_quotes :
    (v : Text) (l : Reader) (rest : Text)
    → read (record l { mode = before_value; value = [] }) (b'\'' ∷ (escape_value v ++ b'\'' ∷ rest))
      ≡ read (pushed (record l { value = v })) rest
unfolding read step_in
read-in_quotes v l rest = read-escape_value v (record l { value = [] }) (b'\'' ∷ rest)

pub not_special-plain :
    (v : Text)
    → contains_any v special_bytes ≡ false
    → all (λ c. not (c_space c)) v ≡ true
    → all plain v ≡ true
unfolding contains_any contains_byte plain
not_special-plain [] h k = refl
not_special-plain (c ∷ v) h k = ground (arith, not_special-plain v)
