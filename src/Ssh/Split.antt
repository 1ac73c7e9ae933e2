-- ===== src/Ssh/Split.antt =====
-- The characters of an endpoint, and how `splitHostPort` takes host and port apart again.
use mathlib.Core.List.{append-nil, append_assoc}
use syncctl.Base.{
  ℕ, Bool, true, false, not, ◌&&◌, [], ◌∷◌, ◌++◌, ◌≡◌, refl, ◌∙◌, inl, inr, arith, all, Text, codes,
  is_empty, ◌==◌, if◌then◌else◌, Bool-cases,
}
use syncctl.Base.Result.{ok}
use syncctl.Base.Numbers.Laws.{sign_or_digit, atoi-all}
use syncctl.Base.Strings.{has_prefix, contains_byte, count_byte}
use syncctl.Base.Strings.Laws.{
  visible, avoids, all_mono, count_byte-avoids, count_byte-append, cut-avoids,
}
use syncctl.Ssh.Valid.{IsPort}
use syncctl.Ssh.{
  user_char, host_char, with_port, bracket_rest, plain_host_port, split_host_port, refused_chars,
}

-- The characters of an authority: visible, and no `/`.
unfoldable pub clean : ℕ → Bool
unfolding visible
clean c = visible c && not (c == b'/')

pub user_char-clean : (c : ℕ) → user_char c ≡ true → clean c ≡ true
unfolding user_char clean
user_char-clean c h = ground arith

host_char-clean : (c : ℕ) → host_char c ≡ true → clean c ≡ true
unfolding host_char clean
host_char-clean c h = ground arith

sign_or_digit-clean : (c : ℕ) → sign_or_digit c ≡ true → clean c ≡ true
unfolding sign_or_digit clean
sign_or_digit-clean c h = ground arith

pub clean-visible : (c : ℕ) → clean c ≡ true → visible c ≡ true
unfolding clean
clean-visible c h = ground arith

pub clean-accepted : (c : ℕ) → clean c ≡ true → not (contains_byte refused_chars c) ≡ true
unfolding clean contains_byte
clean-accepted c h = ground arith

host_char-no_at : (c : ℕ) → host_char c ≡ true → not (c == b'@') ≡ true
unfolding host_char
host_char-no_at c h = ground arith

host_char-no_bracket : (c : ℕ) → host_char c ≡ true → not (c == b']') ≡ true
unfolding host_char
host_char-no_bracket c h = ground arith

sign_or_digit-no_at : (c : ℕ) → sign_or_digit c ≡ true → not (c == b'@') ≡ true
unfolding sign_or_digit
sign_or_digit-no_at c h = ground arith

sign_or_digit-no_colon : (c : ℕ) → sign_or_digit c ≡ true → not (c == b':') ≡ true
unfolding sign_or_digit
sign_or_digit-no_colon c h = ground arith

pub IsPort-all : (p : Text) → IsPort p → all sign_or_digit p ≡ true
IsPort-all p (inl e) = rw e
IsPort-all p (inr (n, value, low, high)) = atoi-all p value

not_empty : (p : Text) → p ≡ [] → is_empty p ≡ false → ⊥
not_empty p e h = ground arith

-- A valid port passes `validatePort`, and comes out as it was written.
IsPort-with_port : (host p : Text) → IsPort p → is_empty p ≡ false → with_port host p ≡ ok (host, p)
unfolding with_port
IsPort-with_port host p (inl e) h = absurd (not_empty p e h)
IsPort-with_port host p (inr (n, value, low, high)) h = rw value (ground arith)

-- The host as it stands in an authority, without a port.
unfoldable pub bracketed : Text → Text
unfolding contains_byte
bracketed host = if contains_byte host b':' then b'[' ∷ (host ++ b']' ∷ []) else host

unfoldable pub ported : Text → Text → Text
ported s port = if not (is_empty port) then s ++ (b':' ∷ port) else s

no_colon : (s : Text) → contains_byte s b':' ≡ false → avoids b':' s ≡ true
unfolding contains_byte
no_colon [] h = refl
no_colon (c ∷ s) h = ground (arith, no_colon s)

host_no_open :
    (c : ℕ) (s : Text) → all host_char (c ∷ s) ≡ true → has_prefix (c ∷ s) (codes "[") ≡ false
unfolding has_prefix host_char
host_no_open c s h = ground arith

split-bracket :
    (host rest : Text)
    → all host_char host ≡ true
    → split_host_port (b'[' ∷ (host ++ (b']' ∷ rest))) ≡ bracket_rest host rest
unfolding split_host_port has_prefix
split-bracket host rest h =
    rw (cut-avoids (b'[' ∷ host) rest b']' (all_mono host host_char-no_bracket h))

split-plain :
    (c : ℕ) (s t : Text)
    → all host_char (c ∷ s) ≡ true
    → split_host_port ((c ∷ s) ++ t) ≡ plain_host_port ((c ∷ s) ++ t)
unfolding split_host_port has_prefix
split-plain c s t h = rw (host_no_open c s h, has_prefix)

plain-port :
    (host port : Text)
    → avoids b':' host ≡ true
    → all sign_or_digit port ≡ true
    → plain_host_port (host ++ (b':' ∷ port)) ≡ with_port host port
unfolding plain_host_port
plain-port host port h p =
    let one : count_byte (host ++ (b':' ∷ port)) b':' ≡ 1 =
      count_byte-append host (b':' ∷ port) b':'
      ∙ unfold count_byte in
        omega (
          arith,
          count_byte-avoids host b':' h,
          count_byte-avoids port b':' (all_mono port sign_or_digit-no_colon p),
        ) in
    rw (one, cut-avoids host port b':' h)

plain-no_port : (host : Text) → avoids b':' host ≡ true → plain_host_port host ≡ ok (host, [])
unfolding plain_host_port
plain-no_port host h = rw (count_byte-avoids host b':' h)

-- The split recovers host and port.
pub split-ported :
    (host port : Text)
    → is_empty host ≡ false
    → all host_char host ≡ true
    → IsPort port
    → split_host_port (ported (bracketed host) port) ≡ ok (host, port)
unfolding bracket_rest
split-ported [] port ne h p = cc
split-ported (c ∷ host) [] ne h p = elim (Bool-cases (contains_byte (c ∷ host) b':')) [
  | inl colon ↦ unfold ported bracketed in rw colon (split-bracket (c ∷ host) [] h)
  | inr single ↦
      unfold ported bracketed in
      rw (single, ← append-nil (c ∷ host))
        (split-plain c host [] h
          ∙ rw append-nil (plain-no_port (c ∷ host) (no_colon (c ∷ host) single)))
]
split-ported (c ∷ host) (d ∷ port) ne h p = elim (Bool-cases (contains_byte (c ∷ host) b':')) [
  | inl colon ↦
      unfold ported bracketed in
      rw (colon, append_assoc)
        (split-bracket (c ∷ host) (b':' ∷ d ∷ port) h
          ∙ IsPort-with_port (c ∷ host) (d ∷ port) p refl)
  | inr single ↦
      unfold ported bracketed in
      rw single (
        split-plain c host (b':' ∷ d ∷ port) h
        ∙ plain-port (c ∷ host) (d ∷ port) (no_colon (c ∷ host) single) (IsPort-all (d ∷ port) p)
        ∙ IsPort-with_port (c ∷ host) (d ∷ port) p refl)
]
