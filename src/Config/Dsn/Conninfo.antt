-- ===== src/Config/Dsn/Conninfo.antt =====
-- How libpq reads a `key=value` connection string, by its documentation: the independent
-- description that the connection strings are held to.
use syncctl.Base.{
  ℕ, Bool, ◌&&◌, ◌||◌, Option, none, some, List, [], ◌∷◌, ◌++◌, leb, ◌==◌, Text, if◌then◌else◌,
}
use syncctl.Config.Dsn.{Kv}

pub data Mode : Type 0 where
  between in_key after_key before_value bare bare_escaped quoted quoted_escaped : Mode

pub record Reader : Type 0 where
  pub mode : Mode
  pub key : Text
  pub value : Text
  pub pairs : List Kv

-- C's `isspace`
abbrev pub c_space : ℕ → Bool
c_space c = c == 0x20 || (leb 0x09 c && leb c 0x0d)

-- The value ends here.
abbrev pub pushed : Reader → Reader
pushed l = record l {
  mode = between;
  pairs = l.pairs ++ record { key = l.key; val = l.value } ∷ [];
}

abbrev bare_char : Reader → ℕ → Reader
bare_char l c =
    if c_space c
    then pushed l
    else if c == b'\\'
    then record l { mode = bare_escaped }
    else record l { mode = bare; value = l.value ++ c ∷ [] }

unfoldable pub step_in : Mode → Reader → ℕ → Option Reader
step_in between l c =
    if c_space c
    then some l
    else if c == b'='
    then none
    else some (record l { mode = in_key; key = c ∷ [] })
step_in in_key l c =
    if c == b'='
    then some (record l { mode = before_value; value = [] })
    else if c_space c
    then some (record l { mode = after_key })
    else some (record l { key = l.key ++ c ∷ [] })
step_in after_key l c =
    if c_space c
    then some l
    else if c == b'='
    then some (record l { mode = before_value; value = [] })
    else none
step_in before_value l c =
    if c_space c
    then some l
    else if c == b'\''
    then some (record l { mode = quoted })
    else some (bare_char l c)
step_in bare l c = some (bare_char l c)
step_in bare_escaped l c = some (record l { mode = bare; value = l.value ++ c ∷ [] })
step_in quoted l c =
    if c == b'\\'
    then some (record l { mode = quoted_escaped })
    else if c == b'\''
    then some (pushed l)
    else some (record l { value = l.value ++ c ∷ [] })
step_in quoted_escaped l c = some (record l { mode = quoted; value = l.value ++ c ∷ [] })

-- A keyword without `=` and an open quote are errors.
finish : Mode → Reader → Option (List Kv)
finish between l = some l.pairs
finish in_key l = none
finish after_key l = none
finish quoted l = none
finish quoted_escaped l = none
finish _ l = some (pushed l).pairs

unfoldable pub read : Reader → Text → Option (List Kv)
unfolding finish step_in
read l [] = finish l.mode l
read l (c ∷ s) = elim (step_in l.mode l c) [ none ↦ none | some l' ↦ read l' s ]

abbrev pub begin : Reader
begin = record { mode = between; key = []; value = []; pairs = [] }

-- The pairs of a connection string, or `none` where libpq reports an error.
unfoldable pub conninfo : Text → Option (List Kv)
unfolding read
conninfo = read begin
