-- ===== src/Ssh.antt =====
-- internal/sshexec/sshexec.go: `Endpoint`, `ParseEndpoint` and what is rendered from it.
pub mod Command
pub mod Valid
pub mod Split
pub mod RoundTrip
pub mod Argv
pub mod Quoting
use syncctl.Base.{
  ℕ, suc, ◌≤◌, ◌<◌, ◌&&◌, ◌||◌, Bool, not, Option, none, some, List, [], ◌∷◌, ◌++◌, ltb, leb, ◌==◌,
  if◌then◌else◌, all, drop, Text, codes, is_empty,
}
use syncctl.Base.Result.{Result, ok, err, ◌>>=◌, ◌>>◌}
use syncctl.Base.Int.{ℤ, pos, ltb_ℤ}
use syncctl.Base.Numbers.{atoi}
use syncctl.Base.Strings.{
  has_prefix, contains_byte, contains_any, count_byte, cut, cut_last, trim_space, trim_prefix_byte,
}

pub record Endpoint : Type 0 where
  pub user : Text
  pub host : Text
  pub port : Text

-- The errors of `ParseEndpoint` and `CheckHost`, one for each message.
pub data HostError : Type 0 where
  not_configured empty_value invalid_chars empty_user empty_host : HostError
  host_dash user_dash host_chars user_chars : HostError
  unterminated : HostError
  unexpected_suffix : Text → HostError
  port_not_number : Text → HostError
  port_out_of_range : ℤ → HostError

abbrev is_word : ℕ → Bool
is_word c = (leb b'a' c && leb c b'z') || (leb b'A' c && leb c b'Z') || (leb b'0' c && leb c b'9')

-- The classes of `validHostRe` and `validUserRe`.
unfoldable pub user_char : ℕ → Bool
user_char c = is_word c || c == b'.' || c == b'_' || c == b'-'

unfoldable pub host_char : ℕ → Bool
unfolding user_char
host_char c = user_char c || c == b':' || c == b'%'

-- `+` wants one character at least.
abbrev matches : (ℕ → Bool) → Text → Bool
matches p s = not (is_empty s) && all p s

unfoldable pub check_range : Text → Option ℤ → Result HostError Text
check_range p none = err (port_not_number p)
check_range p (some n) =
    if ltb_ℤ n (pos 1) || ltb_ℤ (pos 65535) n then err (port_out_of_range n) else ok p

unfoldable pub validate_port : Text → Result HostError Text
unfolding check_range
validate_port p = check_range p (atoi p)

unfoldable pub with_port : Text → Text → Result HostError (Text × Text)
unfolding validate_port
with_port host p = do port ← validate_port p; ok (host, port)

-- What follows the closing bracket.
unfoldable pub bracket_rest : Text → Text → Result HostError (Text × Text)
unfolding with_port
bracket_rest host [] = ok (host, [])
bracket_rest host (c ∷ p) = if c == b':' then with_port host p else err (unexpected_suffix (c ∷ p))

-- An unbracketed value: a port follows a single colon, and more than one make an IPv6 literal.
unfoldable pub plain_host_port : Text → Result HostError (Text × Text)
unfolding with_port
plain_host_port s =
    if count_byte s b':' == 1
    then elim (cut s b':') [ none ↦ ok (s, []) | some (host, p) ↦ with_port host p ]
    else ok (s, [])

unfoldable pub split_host_port : Text → Result HostError (Text × Text)
unfolding bracket_rest plain_host_port
split_host_port s =
    if has_prefix s (codes "[")
    then elim (cut s b']') [
      | none ↦ err unterminated
      | some (before, rest) ↦ bracket_rest (drop 1 before) rest
    ]
    else plain_host_port s

unfoldable pub split_user : Text → Result HostError (Text × Text)
split_user s = elim (cut_last s b'@') [
  | none ↦ ok ([], s)
  | some (user, rest) ↦ if is_empty user then err empty_user else ok (user, rest)
]

-- The checks behind the split, in the order of the source.
unfoldable pub check_parts : Text → Text → Text → Result HostError Endpoint
unfolding has_prefix
check_parts user host port =
    if is_empty host
    then err empty_host
    else if has_prefix host (codes "-")
    then err host_dash
    else if has_prefix user (codes "-")
    then err user_dash
    else if not (matches host_char host)
    then err host_chars
    else if not (is_empty user) && not (matches user_char user)
    then err user_chars
    else ok (record { user = user; host = host; port = port })

-- Blanks, line ends, `/` and NUL.
abbrev pub refused_chars : Text
refused_chars = 0x20 ∷ 0x09 ∷ 0x0a ∷ 0x0d ∷ b'/' ∷ 0 ∷ []

unfoldable pub parse_rest : Text → Text → Result HostError Endpoint
unfolding split_host_port check_parts
parse_rest user rest = do (host, port) ← split_host_port rest; check_parts user host port

unfoldable pub parse_parts : Text → Result HostError Endpoint
unfolding split_user parse_rest
parse_parts s = do (user, rest) ← split_user s; parse_rest user rest

unfoldable pub parse_trimmed : Text → Result HostError Endpoint
unfolding parse_parts
parse_trimmed s =
    if is_empty s
    then err empty_value
    else if contains_any s refused_chars
    then err invalid_chars
    else parse_parts s

unfoldable pub parse_endpoint : Text → Result HostError Endpoint
unfolding parse_trimmed trim_space
parse_endpoint raw = parse_trimmed (trim_space raw)

-- `CheckHost`
unfoldable pub check_host : Text → Result HostError (Unit {0})
unfolding parse_endpoint
check_host host = if is_empty host then err not_configured else (do parse_endpoint host; ok tt)

-- `Endpoint.Destination`
unfoldable pub destination : Endpoint → Text
destination e = if not (is_empty e.user) then e.user ++ (b'@' ∷ e.host) else e.host

-- The authority that `Endpoint.GitURL` builds in its variable `host`.
unfoldable pub authority : Endpoint → Text
authority e =
    let bracketed = if contains_byte e.host b':' then b'[' ∷ (e.host ++ b']' ∷ []) else e.host in
    let ported = if not (is_empty e.port) then bracketed ++ (b':' ∷ e.port) else bracketed in
    if not (is_empty e.user) then e.user ++ (b'@' ∷ ported) else ported

unfoldable pub git_url : Endpoint → Text → Text
unfolding authority
git_url e path = codes "ssh://" ++ (authority e ++ (b'/' ∷ trim_prefix_byte path b'/'))
