-- ===== src/Ssh/Valid.antt =====
-- What `ParseEndpoint` accepts.
use syncctl.Base.{
  ℕ, ◌≤◌, true, false, [], ◌∷◌, ◌≡◌, refl, ◌⊎◌, inl, inr, Option, none, some, arith, all, Text,
  codes, is_empty, ◌==◌, Bool-cases,
}
use syncctl.Base.Result.{ok, err, >>=-eq-ok, guard-eq-ok}
use syncctl.Base.Int.{ℤ, pos, negsuc}
use syncctl.Base.Numbers.{atoi}
use syncctl.Base.Strings.{has_prefix, contains_any, trim_space}
use syncctl.Ssh.{
  refused_chars, parse_rest, parse_parts, Endpoint, HostError, user_char, host_char, check_range,
  validate_port, with_port, bracket_rest, plain_host_port, split_host_port, split_user, check_parts,
  parse_trimmed, parse_endpoint,
}

-- A port that is not given, or a decimal number from 1 to 65535.
abbrev pub IsPort : Text → Type 0
IsPort p = (p ≡ []) ⊎ ((n : ℕ) × (atoi p ≡ some (pos n)) × (1 ≤ n) × (n ≤ 65535))

-- No part can be taken for an option or hold a character that a shell, a URL or an rsync target
-- gives a meaning to.
pub record IsEndpoint (e : Endpoint) : Type 0 where
  pub host_not_empty : is_empty e.host ≡ false
  pub host_valid : all host_char e.host ≡ true
  pub host_no_dash : has_prefix e.host (codes "-") ≡ false
  pub user_valid : all user_char e.user ≡ true
  pub user_no_dash : has_prefix e.user (codes "-") ≡ false
  pub port_valid : IsPort e.port

check_range-ok :
    (p : Text) (o : Option ℤ) {q : Text}
    → check_range p o ≡ ok q
    → (n : ℕ) × (q ≡ p) × (o ≡ some (pos n)) × (1 ≤ n) × (n ≤ 65535)
unfolding check_range
check_range-ok p none h = cc
check_range-ok p (some (pos n)) h = (n, ground arith, refl, ground arith, ground arith)
check_range-ok p (some (negsuc n)) h = absurd (ground arith)

validate_port-IsPort : (p : Text) {q : Text} → validate_port p ≡ ok q → IsPort q
unfolding validate_port
validate_port-IsPort p h =
    let (n, same, value, low, high) = check_range-ok p (atoi p) h in
    rw same (inr (n, value, low, high))

with_port-IsPort : (host p : Text) {h q : Text} → with_port host p ≡ ok (h, q) → IsPort q
unfolding with_port
with_port-IsPort host p e =
    let (port, valid, same) = >>=-eq-ok (validate_port p) (λ port. ok (host, port)) e in
    let good = validate_port-IsPort p valid in ground arith

not_ok : {e : HostError} {x : Text × Text} → err e ≡ ok x → ⊥
not_ok h = cc

bracket_rest-IsPort :
    (host rest : Text) {h p : Text} → bracket_rest host rest ≡ ok (h, p) → IsPort p
unfolding bracket_rest
bracket_rest-IsPort host [] e = inl (ground arith)
bracket_rest-IsPort host (c ∷ rest) {h} {p} e = elim (Bool-cases (c == b':')) [
  | inl colon ↦ with_port-IsPort host rest (rw colon at e)
  | inr other ↦ absurd (not_ok (rw other at e))
]

plain_host_port-IsPort : (s : Text) {h p : Text} → plain_host_port s ≡ ok (h, p) → IsPort p
unfolding plain_host_port
plain_host_port-IsPort s e = grind (arith, with_port-IsPort)

split_host_port-IsPort : (s : Text) {h p : Text} → split_host_port s ≡ ok (h, p) → IsPort p
unfolding split_host_port
split_host_port-IsPort s e = grind (arith, plain_host_port-IsPort, bracket_rest-IsPort)

check_parts-IsEndpoint :
    (user host port : Text) {e : Endpoint}
    → IsPort port
    → check_parts user host port ≡ ok e
    → IsEndpoint e
unfolding check_parts
check_parts-IsEndpoint [] [] port p h = cc
check_parts-IsEndpoint (u ∷ us) [] port p h = cc
check_parts-IsEndpoint [] (c ∷ cs) port p h = ground arith
check_parts-IsEndpoint (u ∷ us) (c ∷ cs) port p h = ground arith

parse_rest-IsEndpoint :
    (user rest : Text) {e : Endpoint} → parse_rest user rest ≡ ok e → IsEndpoint e
unfolding parse_rest
parse_rest-IsEndpoint user rest h =
    let (hp, split, checked) = >>=-eq-ok (split_host_port rest) _ h in
    check_parts-IsEndpoint user hp.0 hp.1 (split_host_port-IsPort rest split) checked

parse_parts-IsEndpoint : (s : Text) {e : Endpoint} → parse_parts s ≡ ok e → IsEndpoint e
unfolding parse_parts
parse_parts-IsEndpoint s h =
    let (ur, split, parsed) = >>=-eq-ok (split_user s) _ h in parse_rest-IsEndpoint ur.0 ur.1 parsed

parse_trimmed-IsEndpoint : (s : Text) {e : Endpoint} → parse_trimmed s ≡ ok e → IsEndpoint e
unfolding parse_trimmed
parse_trimmed-IsEndpoint s h =
    parse_parts-IsEndpoint s
      (guard-eq-ok (contains_any s refused_chars) _ (guard-eq-ok (is_empty s) _ h).1).1

-- What `ParseEndpoint` accepts has a host of hostname or address characters, a user of login-name
-- characters, neither with a leading dash, and no port or a port from 1 to 65535.
pub parse_endpoint-IsEndpoint :
    (raw : Text) {e : Endpoint} → parse_endpoint raw ≡ ok e → IsEndpoint e
unfolding parse_endpoint
parse_endpoint-IsEndpoint raw h = parse_trimmed-IsEndpoint (trim_space raw) h
