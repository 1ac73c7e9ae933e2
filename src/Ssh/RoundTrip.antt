-- ===== src/Ssh/RoundTrip.antt =====
-- sshexec.go, `GitURL` and `ParseEndpoint` together.
use syncctl.Base.{
  ℕ, Bool, true, false, not, ◌&&◌, [], ◌∷◌, ◌++◌, ◌≡◌, refl, arith, all, all-append, Text, is_empty,
  ◌==◌, if◌then◌else◌, and_true,
}
use syncctl.Base.Result.{ok}
use syncctl.Base.Numbers.Laws.{sign_or_digit}
use syncctl.Base.Strings.Laws.{
  all_mono, trim_space-visible, contains_any-all, cut_last-none, cut_last-avoids,
}
use syncctl.Ssh.Valid.{IsEndpoint}
use syncctl.Ssh.{
  Endpoint, user_char, host_char, split_user, check_parts, refused_chars, parse_rest, parse_parts,
  parse_trimmed, parse_endpoint, authority,
}
use syncctl.Ssh.Split.{
  clean, user_char-clean, clean-visible, clean-accepted, IsPort-all, bracketed, ported,
  split-ported,
}

with_user : Text → Text → Text
with_user user s = if not (is_empty user) then user ++ (b'@' ∷ s) else s

authority-parts : (e : Endpoint) → authority e ≡ with_user e.user (ported (bracketed e.host) e.port)
unfolding authority bracketed ported with_user
authority-parts e = refl

-- Both parts, characters first: none is refused by `ParseEndpoint`, and none is an `@`.
authority_char : ℕ → Bool
unfolding clean
authority_char c = clean c && not (c == b'@')

host_char-authority_char : (c : ℕ) → host_char c ≡ true → authority_char c ≡ true
unfolding host_char authority_char
host_char-authority_char c h = ground arith

sign_or_digit-authority_char : (c : ℕ) → sign_or_digit c ≡ true → authority_char c ≡ true
unfolding sign_or_digit authority_char
sign_or_digit-authority_char c h = ground arith

authority_char-no_at : (c : ℕ) → authority_char c ≡ true → not (c == b'@') ≡ true
unfolding authority_char
authority_char-no_at c h = ground arith

ported-not_empty :
    (host port : Text) → is_empty host ≡ false → is_empty (ported (bracketed host) port) ≡ false
unfolding ported bracketed
ported-not_empty [] port h = cc
ported-not_empty (c ∷ host) port h = ground arith

ported-all :
    (host port : Text)
    → all host_char host ≡ true
    → all sign_or_digit port ≡ true
    → all authority_char (ported (bracketed host) port) ≡ true
unfolding ported bracketed authority_char
ported-all host port h p = ground (
  arith,
  all-append authority_char host (b']' ∷ []),
  all-append authority_char host (b':' ∷ port),
  all-append authority_char (b'[' ∷ (host ++ b']' ∷ [])) (b':' ∷ port),
  all_mono host host_char-authority_char h,
  all_mono port sign_or_digit-authority_char p,
)

check_parts-ok : (e : Endpoint) → IsEndpoint e → check_parts e.user e.host e.port ≡ ok e
unfolding check_parts
check_parts-ok e v = ground arith

split_user-with_user :
    (user s : Text) → all authority_char s ≡ true → split_user (with_user user s) ≡ ok (user, s)
unfolding split_user with_user
split_user-with_user [] s h =
    rw (cut_last-none s b'@' (all_mono s authority_char-no_at h), split_user)
split_user-with_user (u ∷ user) s h =
    rw (cut_last-avoids (u ∷ user) s b'@' (all_mono s authority_char-no_at h), split_user)

parse_parts-authority : (e : Endpoint) → IsEndpoint e → parse_parts (authority e) ≡ ok e
unfolding parse_parts parse_rest
parse_parts-authority e v =
    let s = ported (bracketed e.host) e.port in
    rw
      (
        authority-parts e,
        split_user-with_user e.user s
            (ported-all e.host e.port v.host_valid (IsPort-all e.port v.port_valid)),
        split-ported e.host e.port v.host_not_empty v.host_valid v.port_valid,
      )
      (check_parts-ok e v)

with_user-all :
    (user s : Text)
    → all user_char user ≡ true
    → all authority_char s ≡ true
    → all clean (with_user user s) ≡ true
unfolding with_user authority_char clean
with_user-all user s u h = ground (
  arith,
  all-append clean user (b'@' ∷ s),
  all_mono user user_char-clean u,
  all_mono {q = clean} s (λ c k. (and_true (clean c) _ k).0) h,
)

authority-all : (e : Endpoint) → IsEndpoint e → all clean (authority e) ≡ true
authority-all e v = rw (authority-parts e) (
    with_user-all e.user (ported (bracketed e.host) e.port) v.user_valid
      (ported-all e.host e.port v.host_valid (IsPort-all e.port v.port_valid)))

with_user-not_empty : (user s : Text) → is_empty s ≡ false → is_empty (with_user user s) ≡ false
unfolding with_user
with_user-not_empty [] s h = h
with_user-not_empty (u ∷ user) s h = refl

authority-not_empty : (e : Endpoint) → IsEndpoint e → is_empty (authority e) ≡ false
authority-not_empty e v = rw (authority-parts e) (
    with_user-not_empty e.user (ported (bracketed e.host) e.port)
      (ported-not_empty e.host e.port v.host_not_empty))

-- The authority in the URL of `GitURL`, with its brackets round an IPv6 literal, is read back by
-- `ParseEndpoint` as the endpoint that it was written from.
pub parse_endpoint-authority : (e : Endpoint) → IsEndpoint e → parse_endpoint (authority e) ≡ ok e
unfolding parse_endpoint parse_trimmed
parse_endpoint-authority e v =
    let clean_all = authority-all e v in
    rw
      (
        trim_space-visible (authority e) (all_mono (authority e) clean-visible clean_all),
        authority-not_empty e v,
        contains_any-all (authority e) refused_chars
            (all_mono (authority e) clean-accepted clean_all),
      )
      (parse_parts-authority e v)
