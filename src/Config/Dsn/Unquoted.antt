-- ===== src/Config/Dsn/Unquoted.antt =====
-- config.go, `quoteLibPQValue`: values with a tab.
use mathlib.Core.List.{append_assoc}
use syncctl.Base.Strings.Laws.{all_mono, contains_any-all}
use syncctl.Base.Strings.{contains_any, contains_byte}
use syncctl.Base.{
  ℕ, Bool, true, false, not, ◌&&◌, none, List, [], ◌∷◌, ◌++◌, ◌≡◌, refl, ◌∙◌, ap, arith, all,
  all-append, Text, is_empty, and_true,
}
use syncctl.Config.Dsn.Conninfo.{
  Reader, between, before_value, in_key, bare, pushed, step_in, read, begin, conninfo,
}
use syncctl.Config.Dsn.Bytes.{key_byte, special_bytes, plain, within, read_open, read_key}
use syncctl.Config.Dsn.Reading.{quote_value_safe, read-as_is, read-keyword}
use syncctl.Config.Dsn.{Kv, quote_value, pair_text, write_pairs}

abbrev accepted : ℕ → Bool
accepted c = not (contains_byte special_bytes c)

key_byte-accepted : (c : ℕ) → (plain c && key_byte c) ≡ true → accepted c ≡ true
unfolding contains_byte plain
key_byte-accepted c h = ground arith

plain-accepted : (c : ℕ) → plain c ≡ true → accepted c ≡ true
unfolding contains_byte plain
plain-accepted c h = ground arith

read_tab : (l : Reader) (rest : Text) → read (within bare l) (0x09 ∷ rest) ≡ read (pushed l) rest
unfolding read step_in
read_tab l rest = refl

-- A keyword, a blank and a further keyword.
read_lost :
    (l : Reader) (c : ℕ) (rest : Text)
    → key_byte c ≡ true
    → read (within in_key l) (0x20 ∷ c ∷ rest) ≡ none
unfolding read step_in
read_lost l c rest h = ground arith

read-lost :
    (k : Text) (l : Reader) (c : ℕ) (rest : Text)
    → all key_byte k ≡ true
    → key_byte c ≡ true
    → read (within in_key l) (k ++ 0x20 ∷ c ∷ rest) ≡ none
read-lost [] l c rest h hc = read_lost l c rest hc
read-lost (d ∷ k) l c rest h hc =
    let (hd, hk) = and_true (key_byte d) (all key_byte k) h in
    read_key l d (k ++ 0x20 ∷ c ∷ rest) hd
    ∙ read-lost k (record l { key = l.key ++ d ∷ [] }) c rest hk hc

-- A keyword, and a value whose part behind the tab is one word.
pub record IsParted (key : Text) (a : Text) (d : ℕ) (b : Text) : Type 0 where
  pub key_set : is_empty key ≡ false
  pub key_bytes : all key_byte key ≡ true
  pub front_set : is_empty a ≡ false
  pub front_plain : all plain a ≡ true
  pub back_plain : all plain (d ∷ b) ≡ true
  pub back_bytes : all key_byte (d ∷ b) ≡ true

tabbed_set : (a back : Text) → is_empty (a ++ 0x09 ∷ back) ≡ false
tabbed_set [] back = refl
tabbed_set (c ∷ a) back = refl

parted-accepted :
    (a back : Text)
    → all plain a ≡ true
    → all plain back ≡ true
    → contains_any (a ++ 0x09 ∷ back) special_bytes ≡ false
unfolding contains_byte
parted-accepted a back ha hb = contains_any-all (a ++ 0x09 ∷ back) special_bytes (
    all-append accepted a (0x09 ∷ back)
    ∙ rw (all_mono a plain-accepted ha, all_mono back plain-accepted hb))

-- The text of some pairs begins with the first keyword.
write_pairs-head : (q : Kv) (ps : List Kv) → (rest : Text) × (write_pairs (q ∷ ps) ≡ q.key ++ rest)
unfolding write_pairs pair_text
write_pairs-head q [] = (b'=' ∷ quote_value q.val, refl)
write_pairs-head q (r ∷ ps) = (
  b'=' ∷ (quote_value q.val ++ 0x20 ∷ write_pairs (r ∷ ps)),
  append_assoc q.key (b'=' ∷ quote_value q.val) (0x20 ∷ write_pairs (r ∷ ps)),
)

read-parted :
    (key a : Text) (d : ℕ) (b : Text) (l : Reader) (c : ℕ) (rest : Text)
    → IsParted key a d b
    → key_byte c ≡ true
    → read (within between l) (key ++ b'=' ∷ ((a ++ 0x09 ∷ d ∷ b) ++ 0x20 ∷ c ∷ rest)) ≡ none
read-parted key a d b l c rest h hc =
    let tail : Text = 0x20 ∷ c ∷ rest in
    let (hd, hb) = and_true (key_byte d) (all key_byte b) h.back_bytes in
    read-keyword key l ((a ++ 0x09 ∷ d ∷ b) ++ tail) h.key_set h.key_bytes
    ∙ ap (λ x. read (record l { mode = before_value; key = key; value = [] }) x)
        (append_assoc a (0x09 ∷ d ∷ b) tail)
    ∙ read-as_is a (record l { key = key }) (0x09 ∷ d ∷ (b ++ tail)) h.front_plain h.front_set
    ∙ read_tab (record l { key = key; value = a }) (d ∷ (b ++ tail))
    ∙ read_open (pushed (record l { key = key; value = a })) d (b ++ tail) hd
    ∙ read-lost b (record (pushed (record l { key = key; value = a })) { key = d ∷ [] }) c rest hb
        hc

-- The value is written without quotes, since the test for them knows no tab, and libpq ends it
-- there: with any further pair behind it the connection string is refused.
pub conninfo-tab :
    (key a : Text) (d : ℕ) (b : Text)
    → IsParted key a d b
    → (c : ℕ) (k val : Text) (ps : List Kv) → key_byte c ≡ true
    → conninfo (
        write_pairs
          (record { key = key; val = a ++ 0x09 ∷ d ∷ b } ∷ record { key = c ∷ k; val = val } ∷ ps))
      ≡ none
unfolding conninfo write_pairs pair_text
conninfo-tab key a d b h c k val ps hc =
    let q : Kv = record { key = c ∷ k; val = val } in
    let (rest, is) = write_pairs-head q ps in
    rw
      (
        quote_value_safe (a ++ 0x09 ∷ d ∷ b) (tabbed_set a (d ∷ b))
            (parted-accepted a (d ∷ b) h.front_plain h.back_plain),
        is,
        append_assoc,
      )
      (read-parted key a d b begin c (k ++ rest) h hc)
