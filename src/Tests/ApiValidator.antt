-- ===== src/Tests/ApiValidator.antt =====
-- apivalidator/reconciler.go at a secondary that has one user less and gives no count of issues.
use syncctl.Base.{false, none, some, List, [], ◌∷◌, ◌≡◌, refl, text_eq, codes, if◌then◌else◌}
use syncctl.Base.Int.{pos}
use syncctl.Base.Result.{ok}
use syncctl.ApiValidator.{
  redirected, fetch_count, ApiRequest, ApiReply, replied, ApiWorld, ApiSite, no_total,
  secondary_count, api_drift, reconcile_api, api_site,
}
use syncctl.ApiValidator.ReadOnly.{Validated, reconcile_api-Validated}

abbrev first_site : ApiSite
first_site = record { url = codes "a/api/v4"; token = codes "x" }

abbrev second_site : ApiSite
second_site = record { url = codes "b/api/v4"; token = codes "y" }

from_url : api_site (codes "a/") (codes "x") ≡ first_site
unfolding api_site
from_url = refl

abbrev api_reply : List ApiRequest → ApiRequest → ApiReply
api_reply log q =
    if text_eq q.url (codes "b/api/v4/users?per_page=1")
    then replied 200 (some (pos 6))
    else if text_eq q.url (codes "b/api/v4/issues?per_page=1")
    then replied 200 none
    else replied 200 (some (pos 7))

abbrev api : ApiWorld
api = record { reply = api_reply; parse = λ t. some t }

one_drift : (reconcile_api api first_site second_site []).0 ≡ record {
  in_sync = false;
  remaining = 2;
  details =
      api_drift (codes "users") (pos 7) (pos 6) ∷ secondary_count (codes "issues") no_total ∷ [];
}
unfolding reconcile_api text_eq
one_drift = refl

reconcile_api-Validated_example :
    Validated api first_site second_site [] (reconcile_api api first_site second_site [])
reconcile_api-Validated_example = reconcile_api-Validated api first_site second_site []

-- The primary redirects to another host, which is given the token.
abbrev astray : ApiWorld
astray = record {
  reply = λ log q.
      if text_eq q.url (codes "c") then replied 200 (some (pos 7)) else redirected (codes "c");
  parse = λ t. some t;
}

token_astray : fetch_count astray first_site (codes "users") [] ≡ (
  ok (pos 7),
  record { method = codes "GET"; url = codes "a/api/v4/users?per_page=1"; token = codes "x" }
      ∷ record { method = codes "GET"; url = codes "c"; token = codes "x" }
      ∷ [],
)
unfolding fetch_count text_eq
token_astray = refl
