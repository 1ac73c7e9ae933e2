-- ===== src/Registry/Auth.antt =====
-- registry/auth.go and `get` of registry/reconciler.go: bearer tokens from the realm that a registry
-- names. What `url.Parse` and `strings.ToLower` give are parameters, and so are the answers of both
-- servers, which may depend on all requests before.
use syncctl.Base.{
  ℕ, Bool, not, Option, none, some, List, [], ◌∷◌, any, Text, codes, is_empty, text_eq,
  if◌then◌else◌,
}
use syncctl.Base.Int.{ℤ}
use syncctl.Base.Result.{Result, ok, err}

-- What is used of a URL.
pub record Url : Type 0 where
  pub scheme : Text
  pub host : Text
  pub hostname : Text

pub record Urls : Type 0 where
  pub parse : Text → Option Url
  pub lower : Text → Text

-- `authenticator`, without its cache
pub record Authenticator : Type 0 where
  pub static : Text
  pub allowed_hosts : List Text
  pub allow_insecure : Bool

pub data AuthError : Type 0 where
  unparsed_realm http_realm no_realm_host : AuthError
  scheme_not_allowed host_not_allowed : Text → AuthError
  realm_unreachable undecoded no_token : AuthError
  realm_status : ℕ → AuthError
  -- those of `get`
  registry_unreachable no_bearer_challenge rejected : AuthError

-- A request to the registry with a token, the request for a token, and a redirect that is followed.
pub data AuthEvent : Type 0 where
  registry_get : Text → Text → AuthEvent
  token_get : Url → Text → Text → AuthEvent
  redirect : Url → AuthEvent

-- The cache of tokens by scope, and the requests.
pub record AuthState : Type 0 where
  pub cached : List (Text × Text)
  pub log : List AuthEvent

pub record TokenBody : Type 0 where
  pub token : Text
  pub access_token : Text
  pub expires_in : ℤ

pub data TokenReply : Type 0 where
  no_reply : TokenReply
  -- the status, and the body if it can be decoded
  replied : ℕ → Option TokenBody → TokenReply

pub data RegistryReply : Type 0 where
  no_answer : RegistryReply
  -- the status, the header `WWW-Authenticate`, and the body
  answered : ℕ → Text → Text → RegistryReply

pub record RegistryWorld : Type 0 where
  pub registry : List AuthEvent → Text → Text → RegistryReply
  -- where the realm redirects the request, and what comes at the end
  pub redirects : List AuthEvent → List Url
  pub realm : List AuthEvent → TokenReply

unfoldable pub lookup : Text → List (Text × Text) → Option Text
unfolding text_eq
lookup k [] = none
lookup k ((j, v) ∷ m) = if text_eq j k then some v else lookup k m

unfoldable pub delete : Text → List (Text × Text) → List (Text × Text)
unfolding text_eq
delete k [] = []
delete k ((j, v) ∷ m) = let rest = delete k m in if text_eq j k then rest else (j, v) ∷ rest

module _ (urls : Urls) where
  lower_hosts : List Text → List Text
  lower_hosts [] = []
  lower_hosts (h ∷ hosts) =
      let rest = lower_hosts hosts in if is_empty h then rest else urls.lower h ∷ rest

  -- `newAuthenticator`
  unfoldable pub new_authenticator : Text → List Text → Bool → Authenticator
  unfolding lower_hosts
  new_authenticator token hosts insecure = record {
    static = token;
    allowed_hosts = lower_hosts hosts;
    allow_insecure = insecure;
  }

  unfoldable pub is_allowed : Authenticator → Text → Bool
  unfolding text_eq
  is_allowed a hostname = any (text_eq (urls.lower hostname)) a.allowed_hosts

  unfoldable pub scheme_error : Authenticator → Url → Option AuthError
  unfolding text_eq
  scheme_error a u =
      if text_eq u.scheme (codes "https")
      then none
      else if text_eq u.scheme (codes "http")
      then (if not a.allow_insecure then some http_realm else none)
      else some (scheme_not_allowed u.scheme)

  abbrev pub allowed_host : Authenticator → Url → Result AuthError Url
  allowed_host a u =
      if is_empty u.host
      then err no_realm_host
      else if not (is_allowed a u.hostname)
      then err (host_not_allowed u.hostname)
      else ok u

  abbrev pub after_scheme : Authenticator → Url → Option AuthError → Result AuthError Url
  after_scheme a u (some e) = err e
  after_scheme a u none = allowed_host a u

  unfoldable pub check_url : Authenticator → Option Url → Result AuthError Url
  unfolding scheme_error is_allowed
  check_url a none = err unparsed_realm
  check_url a (some u) = after_scheme a u (scheme_error a u)

  -- `checkRealm`
  unfoldable pub check_realm : Authenticator → Text → Result AuthError Url
  unfolding check_url
  check_realm a raw = check_url a (urls.parse raw)
