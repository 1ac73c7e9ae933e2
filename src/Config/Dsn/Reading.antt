-- ===== src/Config/Dsn/Reading.antt =====
-- config.go, the loop of `dsnFrom`: its pairs and the reader of libpq.
use mathlib.Core.List.{append-nil, append_assoc}
use syncctl.Base.{
  true, false, some, List, [], ◌∷◌, ◌++◌, ◌≡◌, refl, ◌∙◌, ap, sym, inl, inr, arith, all, All, Text,
  is_empty, Bool-cases, and_true,
}
use syncctl.Base.Strings.{contains_any}
use syncctl.Config.Dsn.Conninfo.{between, before_value, bare, Reader, pushed, step_in, read}
use syncctl.Config.Dsn.{Kv, escape_value, quote_value, pair_text, write_pairs}
use syncctl.Config.Dsn.Bytes.{
  key_byte, special_bytes, readable, plain, within, read-key, read_open, read_first, read-bare,
  read-in_quotes, not_special-plain,
}

-- A value as it is written: in quotes, or bare and without a byte that means something.
data Written (v : Text) : Type 0 where
  in_quotes : quote_value v ≡ b'\'' ∷ (escape_value v ++ b'\'' ∷ []) → Written v
  as_is : all plain v ≡ true → is_empty v ≡ false → quote_value v ≡ v → Written v

quote_value_special :
    (v : Text)
    → is_empty v ≡ false
    → contains_any v special_bytes ≡ true
    → quote_value v ≡ b'\'' ∷ (escape_value v ++ b'\'' ∷ [])
unfolding quote_value
quote_value_special v set special = ground arith

pub quote_value_safe :
    (v : Text) → is_empty v ≡ false → contains_any v special_bytes ≡ false → quote_value v ≡ v
unfolding quote_value
quote_value_safe v set safe = ground arith

quote_value_empty : quote_value [] ≡ b'\'' ∷ (escape_value [] ++ b'\'' ∷ [])
unfolding quote_value
quote_value_empty = refl

quote_value-Written : (v : Text) → readable v ≡ true → Written v
quote_value-Written [] h = in_quotes quote_value_empty
quote_value-Written (c ∷ v) h = elim (Bool-cases (contains_any (c ∷ v) special_bytes)) [
  | inl special ↦ in_quotes (quote_value_special (c ∷ v) refl special)
  | inr safe ↦
      as_is (not_special-plain (c ∷ v) safe (rw safe at h)) refl
        (quote_value_safe (c ∷ v) refl safe)
]

read_blank : (l : Reader) (rest : Text) → read (within bare l) (0x20 ∷ rest) ≡ read (pushed l) rest
unfolding read step_in
read_blank l rest = refl

skip_blank : (l : Reader) (rest : Text) → read (pushed l) (0x20 ∷ rest) ≡ read (pushed l) rest
unfolding read step_in
skip_blank l rest = refl

pub read-as_is :
    (v : Text) (l : Reader) (rest : Text)
    → all plain v ≡ true
    → is_empty v ≡ false
    → read (record l { mode = before_value; value = [] }) (v ++ rest)
      ≡ read (within bare (record l { value = v })) rest
read-as_is [] l rest h set = cc
read-as_is (c ∷ v) l rest h set =
    let (hc, hv) = and_true (plain c) (all plain v) h in
    read_first l c (v ++ rest) hc ∙ read-bare v (record l { value = c ∷ [] }) rest hv

-- A value, and the blank behind it.
read-quote_value_blank :
    (v : Text) (l : Reader) (rest : Text)
    → Written v
    → read (record l { mode = before_value; value = [] }) (quote_value v ++ 0x20 ∷ rest)
      ≡ read (pushed (record l { value = v })) rest
read-quote_value_blank v l rest (in_quotes is) =
    rw (is, append_assoc)
      (read-in_quotes v l (0x20 ∷ rest) ∙ skip_blank (record l { value = v }) rest)
read-quote_value_blank v l rest (as_is h set is) =
    rw is (read-as_is v l (0x20 ∷ rest) h set ∙ read_blank (record l { value = v }) rest)

-- The last value.
read-quote_value_end :
    (v : Text) (l : Reader)
    → Written v
    → read (record l { mode = before_value; value = [] }) (quote_value v)
      ≡ some (l.pairs ++ record { key = l.key; val = v } ∷ [])
unfolding read
read-quote_value_end v l (in_quotes is) = rw is (read-in_quotes v l [])
read-quote_value_end v l (as_is h set is) = rw is (
    ap (λ x. read (record l { mode = before_value; value = [] }) x) (sym (append-nil v))
    ∙ read-as_is v l [] h set)

-- The keyword is a row of bytes other than blanks and `=`, and the value can be read.
pub record IsPair (p : Kv) : Type 0 where
  pub key_set : is_empty p.key ≡ false
  pub key_bytes : all key_byte p.key ≡ true
  pub value_readable : readable p.val ≡ true

pub read-keyword :
    (k : Text) (l : Reader) (rest : Text)
    → is_empty k ≡ false
    → all key_byte k ≡ true
    → read (within between l) (k ++ b'=' ∷ rest)
      ≡ read (record l { mode = before_value; key = k; value = [] }) rest
read-keyword [] l rest set h = cc
read-keyword (c ∷ k) l rest set h =
    let (hc, hk) = and_true (key_byte c) (all key_byte k) h in
    read_open l c (k ++ b'=' ∷ rest) hc ∙ read-key k (record l { key = c ∷ [] }) rest hk

pub read-write_pairs :
    (p : Kv) (ps : List Kv) (l : Reader)
    → All IsPair (p ∷ ps)
    → read (within between l) (write_pairs (p ∷ ps)) ≡ some (l.pairs ++ p ∷ ps)
unfolding write_pairs pair_text
read-write_pairs p [] l (h, _) =
    read-keyword p.key l (quote_value p.val) h.key_set h.key_bytes
    ∙ read-quote_value_end p.val (record l { key = p.key })
        (quote_value-Written p.val h.value_readable)
read-write_pairs p (q ∷ ps) l (h, hs) = rw append_assoc (
    read-keyword p.key l (quote_value p.val ++ 0x20 ∷ write_pairs (q ∷ ps)) h.key_set h.key_bytes
    ∙ read-quote_value_blank p.val (record l { key = p.key }) (write_pairs (q ∷ ps))
        (quote_value-Written p.val h.value_readable)
    ∙ read-write_pairs q ps (record l { key = p.key; value = p.val; pairs = l.pairs ++ p ∷ [] }) hs
    ∙ rw append_assoc)
