-- ===== src/Dbkey.antt =====
-- internal/dbkey/dbkey.go: reading `db_key_base` on both sites and comparing it.
pub mod Mismatch
use syncctl.Base.{
  ℕ, Bool, true, false, ◌&&◌, ◌||◌, Option, none, some, [], ◌∷◌, ◌++◌, leb, ◌==◌, Text, codes,
  is_empty, text_eq, if◌then◌else◌,
}
use syncctl.Base.Result.{Result, ok, err}
use syncctl.Base.Strings.{strip_prefix, trim_space}
use syncctl.Effects.{Action, Log, World, SshError, Runner, ◌>>=◌, return, fail, wrap}
use syncctl.Ssh.{HostError, check_host}

pub data KeyError : Type 0 where
  key_host : HostError → KeyError
  context_done : KeyError
  key_ssh : Text → SshError → KeyError
  key_missing : Text → KeyError

pub data CheckError : Type 0 where
  primary_key : KeyError → CheckError
  secondary_key : KeyError → CheckError
  -- `ErrKeyMismatch`
  key_mismatch : CheckError

-- `\s` of a regular expression, `['"]` and `[A-Za-z0-9_-]`
abbrev re_space : ℕ → Bool
re_space c = c == 0x20 || c == 0x09 || c == 0x0a || c == 0x0c || c == 0x0d

abbrev re_quote : ℕ → Bool
re_quote c = c == b'\'' || c == b'"'

abbrev key_char : ℕ → Bool
key_char c =
    (leb b'A' c && leb c b'Z')
    || (leb b'a' c && leb c b'z')
    || (leb b'0' c && leb c b'9')
    || c == b'_'
    || c == b'-'

-- `\s*`; what follows cannot match a blank, so taking all of them loses no match
skip_spaces : Text → Text
skip_spaces [] = []
skip_spaces (c ∷ s) = if re_space c then skip_spaces s else c ∷ s

-- `['"]?`
skip_quote : Text → Text
skip_quote [] = []
skip_quote (c ∷ s) = if re_quote c then s else c ∷ s

-- `([A-Za-z0-9_-]+)`, the longest row, if it has a character
key_run : Text → Text
key_run [] = []
key_run (c ∷ s) = if key_char c then c ∷ key_run s else []

captured : Text → Option Text
captured key = if is_empty key then none else some key

-- `\s*['"]?([A-Za-z0-9_-]+)`
value_at : Text → Option Text
unfolding skip_spaces skip_quote key_run captured
value_at s = captured (key_run (skip_quote (skip_spaces s)))

-- `dbKeyRe`, which stands at the start of the text
match_gitlab_rb : Text → Option Text
unfolding value_at strip_prefix
match_gitlab_rb s = elim (strip_prefix (skip_spaces s) (codes "gitlab_rails['db_key_base']")) [
  | none ↦ none
  | some rest ↦ elim (strip_prefix (skip_spaces rest) (codes "=")) [
    | none ↦ none
    | some value ↦ value_at value
  ]
]

-- `db_key_base:` with a value, at the first place where both are found
yaml_at : Text → Option Text
unfolding value_at strip_prefix
yaml_at s = elim (strip_prefix s (codes "db_key_base:")) [ none ↦ none | some rest ↦ value_at rest ]

match_yaml : Text → Option Text
unfolding yaml_at
match_yaml [] = none
match_yaml (c ∷ s) = elim (yaml_at (c ∷ s)) [ some key ↦ some key | none ↦ match_yaml s ]

unfoldable pub find_key : Text → Option Text
unfolding match_gitlab_rb match_yaml
find_key s = elim (match_gitlab_rb s) [ some key ↦ some key | none ↦ match_yaml s ]

-- The commands of `tryFetchKey`
pub fetch_command : Bool → Text
fetch_command with_sudo =
    let plain =
      codes
        "grep 'db_key_base' /var/opt/gitlab/gitlab-rails/etc/secrets.yml 2>/dev/null || grep \"gitlab_rails\\['db_key_base'\\]\" /etc/gitlab/gitlab.rb 2>/dev/null || true" in
    if with_sudo
    then codes
        "sudo grep 'db_key_base' /var/opt/gitlab/gitlab-rails/etc/secrets.yml 2>/dev/null || "
      ++ plain
    else plain

module _ (w : World) (runner : Runner) where
  unfoldable pub try_fetch_key : Text → Bool → Action Log SshError Text
  try_fetch_key host with_sudo = runner host (fetch_command with_sudo)

  -- The second attempt, without sudo, unless the context is done.
  unfoldable pub fetch_plain : Text → Action Log KeyError Text
  unfolding try_fetch_key
  fetch_plain host l =
      if w.cancelled l
      then (err context_done, l)
      else wrap (key_ssh host) (try_fetch_key host false) l

  unfoldable pub retry_plain : Text → Result SshError Text × Log → Result KeyError Text × Log
  unfolding fetch_plain
  retry_plain host (ok text, l) = (ok text, l)
  retry_plain host (err e, l) = fetch_plain host l

  unfoldable pub fetch_text : Text → Action Log KeyError Text
  unfolding try_fetch_key retry_plain
  fetch_text host l = retry_plain host (try_fetch_key host true l)

  unfoldable pub key_of : Text → Option Text → Action Log KeyError Text
  key_of host none = fail (key_missing host)
  key_of host (some key) = return (trim_space key)

  unfoldable pub fetch_checked : Text → Result HostError (Unit {0}) → Action Log KeyError Text
  unfolding fetch_text key_of find_key
  fetch_checked host (err e) = fail (key_host e)
  fetch_checked host (ok _) = do text ← fetch_text host; key_of host (find_key text)

  unfoldable pub fetch_key : Text → Action Log KeyError Text
  unfolding fetch_checked
  fetch_key host = fetch_checked host (check_host host)

  unfoldable pub compare_keys : Text → Text → Action Log CheckError (Unit {0})
  unfolding text_eq
  compare_keys p s = if text_eq p s then return tt else fail key_mismatch

  -- `CheckWithRunner`
  unfoldable pub check_keys : Text → Text → Action Log CheckError (Unit {0})
  unfolding fetch_key compare_keys
  check_keys primary secondary = do
    p ← wrap primary_key (fetch_key primary)
    s ← wrap secondary_key (fetch_key secondary)
    compare_keys p s
