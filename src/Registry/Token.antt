-- ===== src/Registry/Token.antt =====
-- registry/auth.go, `token` and `invalidate`, and registry/reconciler.go, `get`.
use syncctl.Base.{
  ℕ, not, Option, none, some, List, [], ◌∷◌, ◌++◌, ◌==◌, Text, is_empty, if◌then◌else◌,
}
use syncctl.Base.Int.{pos, ltb_ℤ}
use syncctl.Base.Result.{Result, ok, err}
use syncctl.Effects.{Action, ◌>>=◌, return, fail}
use syncctl.Registry.Challenge.{Challenge, parse_challenge}
use syncctl.Registry.Auth.{
  Url, Urls, Authenticator, AuthError, host_not_allowed, realm_unreachable, undecoded, no_token,
  realm_status, registry_unreachable, no_bearer_challenge, rejected, AuthEvent, registry_get,
  token_get, redirect, AuthState, TokenBody, TokenReply, no_reply, replied, RegistryReply,
  no_answer, answered, RegistryWorld, lookup, delete, is_allowed, check_realm,
}

-- The steps of the exchange, on the cache and the requests.
abbrev pub Exchange : Type 0 → Type 0
Exchange A = Action AuthState AuthError A

abbrev pub logged : AuthEvent → AuthState → AuthState
logged e s = record s { log = s.log ++ e ∷ [] }

abbrev pub lift_result : {A : Type 0} → Result AuthError A → Exchange A
lift_result r s = (r, s)

-- The token of a reply, which may be under either name.
unfoldable pub token_of : TokenBody → Text
token_of b = if is_empty b.token then b.access_token else b.token

-- A token that lives longer than two minutes is kept.
unfoldable pub keep_token : Challenge → TokenBody → Exchange Text
unfolding token_of
keep_token c b s =
    if is_empty (token_of b)
    then (err no_token, s)
    else if ltb_ℤ (pos 120) b.expires_in
    then (ok (token_of b), record s { cached = (c.scope, token_of b) ∷ delete c.scope s.cached })
    else (ok (token_of b), s)

unfoldable pub read_reply : Challenge → TokenReply → Exchange Text
unfolding keep_token
read_reply c no_reply = fail realm_unreachable
read_reply c (replied status none) =
    if not (status == 200) then fail (realm_status status) else fail undecoded
read_reply c (replied status (some b)) =
    if not (status == 200) then fail (realm_status status) else keep_token c b

unfoldable pub invalidate : Text → AuthState → AuthState
unfolding delete
invalidate scope s = record s { cached = delete scope s.cached }

module _ (urls : Urls) (a : Authenticator) where
  -- `CheckRedirect` on each redirect of the realm.
  unfoldable pub follow : List Url → Exchange (Unit {0})
  unfolding is_allowed
  follow [] s = (ok tt, s)
  follow (u ∷ hops) s =
      let rest = follow hops (logged (redirect u) s) in
      if not (is_allowed urls a u.hostname) then (err (host_not_allowed u.hostname), s) else rest

module _ (urls : Urls) (w : RegistryWorld) (a : Authenticator) where
  -- The request to the realm.
  unfoldable pub request_token : Challenge → Url → Exchange Text
  unfolding follow read_reply
  request_token c u s =
      let asked = logged (token_get u c.service c.scope) s in
      (follow urls a (w.redirects asked.log) >>= λ _ t. read_reply c (w.realm t.log) t) asked

  unfoldable pub cached_or : Challenge → Option Text → Exchange Text
  unfolding request_token check_realm
  cached_or c (some token) = return token
  cached_or c none = lift_result (check_realm urls a c.realm) >>= request_token c

  -- `token`
  unfoldable pub token_for : Challenge → Exchange Text
  unfolding cached_or lookup
  token_for c s =
      if not (is_empty a.static) then (ok a.static, s) else cached_or c (lookup c.scope s.cached) s

  -- `doGet`
  unfoldable pub do_get : Text → Text → Exchange RegistryReply
  do_get url token s = (ok (w.registry s.log url token), logged (registry_get url token) s)

  -- The retry with the token; a token that is refused is dropped.
  unfoldable pub second_reply : Challenge → RegistryReply → Exchange (ℕ × Text)
  unfolding invalidate
  second_reply c no_answer s = (err registry_unreachable, s)
  second_reply c (answered status header body) s =
      if status == 401 then (err rejected, invalidate c.scope s) else (ok (status, body), s)

  unfoldable pub with_challenge : Text → Option Challenge → Exchange (ℕ × Text)
  unfolding token_for do_get second_reply
  with_challenge url none = fail no_bearer_challenge
  with_challenge url (some c) =
      token_for c >>= λ token. do_get url token >>= λ reply. second_reply c reply

  unfoldable pub first_reply : Text → RegistryReply → Exchange (ℕ × Text)
  unfolding with_challenge parse_challenge
  first_reply url no_answer = fail registry_unreachable
  first_reply url (answered status header body) =
      if not (status == 401)
      then return (status, body)
      else with_challenge url (parse_challenge header)

  -- `get`, with the status and the body of the answer
  unfoldable pub get : Text → Exchange (ℕ × Text)
  unfolding do_get first_reply
  get url = do_get url [] >>= λ reply. first_reply url reply
