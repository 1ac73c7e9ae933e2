-- ===== src/Pgsetup/Redact.antt =====
-- pgsetup/pgsetup.go: `dsnPasswordRe` and `RedactDSN`.
use syncctl.Base.{
  ℕ, zero, suc, Bool, ◌||◌, Option, none, some, [], ◌∷◌, ◌++◌, length, ◌==◌, Text, codes,
  if◌then◌else◌,
}
use syncctl.Base.Strings.{strip_prefix}

-- `\s` of a regular expression
abbrev pub re_blank : ℕ → Bool
re_blank c = c == 0x20 || c == 0x09 || c == 0x0a || c == 0x0c || c == 0x0d

-- What follows `(?:[^'\\]|\\.)*'`; a dot matches no line end.
unfoldable pub quoted_end : Text → Option Text
quoted_end [] = none
quoted_end (c ∷ []) = if c == b'\'' then some [] else none
quoted_end (c ∷ d ∷ s) =
    let escaped = quoted_end s in
    let plain = quoted_end (d ∷ s) in
    if c == b'\''
    then some (d ∷ s)
    else if c == b'\\'
    then (if d == 0x0a then none else escaped)
    else plain

-- What follows `[^\s]*`
unfoldable pub skip_word : Text → Text
skip_word [] = []
skip_word (c ∷ s) = let rest = skip_word s in if re_blank c then c ∷ s else rest

-- What follows the value, quoted if it can be read so, and otherwise bare.
abbrev or_word : Text → Option Text → Text
or_word s none = skip_word s
or_word s (some rest) = rest

unfoldable pub after_value : Text → Text
unfolding quoted_end skip_word
after_value [] = []
after_value (c ∷ s) =
    let quoted = or_word (c ∷ s) (quoted_end s) in
    let bare = skip_word (c ∷ s) in if c == b'\'' then quoted else bare

-- `ReplaceAllString`; each round takes a byte at least, so that the length of the text is fuel enough.
unfoldable pub redact : ℕ → Text → Text
unfolding strip_prefix after_value
redact zero s = s
redact (suc n) [] = []
redact (suc n) (c ∷ s) = elim (strip_prefix (c ∷ s) (codes "password=")) [
  | some value ↦ codes "password=***" ++ redact n (after_value value)
  | none ↦ c ∷ redact n s
]

-- `RedactDSN`
unfoldable pub redact_dsn : Text → Text
unfolding redact
redact_dsn s = redact (length s) s
