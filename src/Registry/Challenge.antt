-- ===== src/Registry/Challenge.antt =====
-- registry/auth.go: reading the challenge of a registry. `splitParams` walks over runes and writes them again:
-- its separators are ASCII, so that it splits what is written by all of them.
use mathlib.Core.List.{reverse}
use syncctl.Base.{
  Bool, false, not, ◌&&◌, Option, none, some, List, [], ◌∷◌, ◌++◌, drop, ◌==◌, Text, codes,
  is_empty, text_eq, if◌then◌else◌, length,
}
use syncctl.Base.Strings.{has_prefix, cut, trim_space}
use syncctl.Registry.Runes.{written}

-- `challenge`
pub record Challenge : Type 0 where
  pub realm : Text
  pub service : Text
  pub scope : Text

-- The loop of `splitParams` on what is written, with what stands in its variables `inQuotes` and `current`
unfoldable pub split_from : Bool → Text → Text → List Text
split_from quoted current [] = if is_empty current then [] else current ∷ []
split_from quoted current (c ∷ s) =
    let toggled = split_from (not quoted) (current ++ c ∷ []) s in
    let parted = current ∷ split_from quoted [] s in
    let longer = split_from quoted (current ++ c ∷ []) s in
    if c == b'"' then toggled else if c == b',' && not quoted then parted else longer

-- `splitParams`
unfoldable pub split_params : Text → List Text
unfolding split_from written
split_params s = split_from false [] (written 0 s)

unfoldable pub skip_quotes : Text → Text
skip_quotes [] = []
skip_quotes (c ∷ s) = let rest = skip_quotes s in if c == b'"' then rest else c ∷ s

-- `strings.Trim(value, "\"")`
unfoldable pub trim_quotes : Text → Text
unfolding skip_quotes
trim_quotes s = reverse (skip_quotes (reverse (skip_quotes s)))

-- The assignment of a parameter that has a key and a value; other keys are passed over.
unfoldable pub assign : Text → Text → Challenge → Challenge
unfolding text_eq
assign key value c =
    if text_eq key (codes "realm")
    then record c { realm = value }
    else if text_eq key (codes "service")
    then record c { service = value }
    else if text_eq key (codes "scope")
    then record c { scope = value }
    else c

unfoldable pub read_part : Option (Text × Text) → Challenge → Challenge
unfolding assign trim_quotes trim_space
read_part none c = c
read_part (some (key, value)) c = assign (trim_space key) (trim_quotes (trim_space value)) c

unfoldable pub read_parts : List Text → Challenge → Challenge
unfolding read_part cut
read_parts [] c = c
read_parts (part ∷ parts) c = read_parts parts (read_part (cut part b'=') c)

abbrev pub no_challenge : Challenge
no_challenge = record { realm = []; service = []; scope = [] }

abbrev pub bearer : Text
bearer = codes "Bearer "

abbrev pub with_realm : Challenge → Option Challenge
with_realm c = if is_empty c.realm then none else some c

-- `parseChallenge`
unfoldable pub parse_challenge : Text → Option Challenge
unfolding has_prefix split_params read_parts
parse_challenge header =
    if not (has_prefix header bearer)
    then none
    else with_realm (read_parts (split_params (drop (length bearer) header)) no_challenge)
