-- ===== src/Registry/Allowed.antt =====
-- registry/auth.go: whatever the servers answer, tokens are asked of configured hosts alone.
use syncctl.Base.{true, List, [], ◌++◌, All, ◌≡◌, ◌≢◌, ◌⊎◌, Text, codes}
use syncctl.Base.Result.{Result}
use syncctl.Registry.Challenge.{Challenge}
use syncctl.Registry.Auth.{
  Url, Urls, Authenticator, AuthEvent, registry_get, token_get, redirect, AuthState, is_allowed,
}
use syncctl.Registry.Token.{Exchange}

module _ (urls : Urls) (a : Authenticator) where
  -- By https, or by http where that is allowed.
  abbrev SchemeAllowed : Url → Type 0
  SchemeAllowed u =
      (u.scheme ≡ codes "https") ⊎ ((u.scheme ≡ codes "http") × (a.allow_insecure ≡ true))

  -- The requests to the registry are for one URL; those for tokens go to configured hosts, the first by
  -- a scheme that is allowed.
  abbrev pub IsApproved : Text → AuthEvent → Type 0
  IsApproved url (registry_get u token) = u ≡ url
  IsApproved url (token_get u service scope) =
      SchemeAllowed u × (u.host ≢ []) × (is_allowed urls a u.hostname ≡ true)
  IsApproved url (redirect u) = is_allowed urls a u.hostname ≡ true

  pub record Asks (url : Text) (log log' : List AuthEvent) : Type 0 where
    pub requests : List AuthEvent
    pub appended : log' ≡ log ++ requests
    pub approved : All (IsApproved url) requests

  -- Every run of the step asks only what is approved.
  abbrev IsSafe : Text → {A : Type 0} → Exchange A → Type 0
  IsSafe url m = (s : AuthState) → Asks url s.log (m s).1.log

  abbrev IsRealm : Url → Type 0
  IsRealm u = SchemeAllowed u × (u.host ≢ []) × (is_allowed urls a u.hostname ≡ true)
