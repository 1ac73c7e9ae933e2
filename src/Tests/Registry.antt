-- ===== src/Tests/Registry.antt =====
-- The theorems about registries at concrete answers.
use syncctl.Base.{true, false, some, List, [], ◌∷◌, ◌≡◌, ◌↔◌, refl, Text, codes}
use syncctl.Base.Int.{pos}
use syncctl.Base.Result.{Result, ok}
use syncctl.Registry.Runes.{is_utf8}
use syncctl.Registry.Challenge.{split_params, parse_challenge}
use syncctl.Registry.Header.{header_of, parse_challenge-header}
use syncctl.Registry.Auth.{Urls, Authenticator, AuthState, RegistryWorld, answered, replied}
use syncctl.Registry.Token.{get}
use syncctl.Registry.Compare.{reconcile_registry}
use syncctl.Registry.InSync.{Listed, reconcile_registry_iff}

abbrev realm : Text
realm = codes "https://gitlab.example.com/jwt/auth"

abbrev service : Text
service = codes "container_registry"

abbrev scope : Text
scope = codes "repository:g/p:pull,push"

realm_utf8 : is_utf8 0 realm ≡ true
unfolding is_utf8
realm_utf8 = refl

service_utf8 : is_utf8 0 service ≡ true
unfolding is_utf8
service_utf8 = refl

scope_utf8 : is_utf8 0 scope ≡ true
unfolding is_utf8
scope_utf8 = refl

-- A byte that begins no rune becomes U+FFFD, and what is a rune stays.
replaced : split_params (0xff ∷ 0xc3 ∷ 0xa9 ∷ []) ≡ (0xef ∷ 0xbf ∷ 0xbd ∷ 0xc3 ∷ 0xa9 ∷ []) ∷ []
unfolding split_params
replaced = refl

parse_challenge-header_example :
    parse_challenge (header_of realm service scope)
    ≡ some (record { realm = realm; service = service; scope = scope })
parse_challenge-header_example =
    parse_challenge-header realm service scope refl refl refl realm_utf8 service_utf8 scope_utf8
      (λ e. cc)

-- Every text names one host by https.
abbrev one_host : Urls
one_host = record {
  parse = λ t. some (record {
    scheme = codes "https";
    host = codes "gitlab.example.com";
    hostname = codes "gitlab.example.com";
  });
  lower = λ t. t;
}

abbrev configured : Authenticator
configured = record {
  static = [];
  allowed_hosts = codes "gitlab.example.com" ∷ [];
  allow_insecure = false;
}

-- The registry wants a token for every request, and the realm gives one.
abbrev wanting : RegistryWorld
wanting = record {
  registry = λ log url token. elim token [
    | [] ↦ answered 401 (header_of realm service scope) []
    | _ ∷ _ ↦ answered 200 [] (codes "{}")
  ];
  redirects = λ log. [];
  realm = λ log.
      replied 200 (some (record { token = codes "t"; access_token = []; expires_in = pos 300 }));
}

abbrev fresh : AuthState
fresh = record { cached = []; log = [] }

exchanged :
    (get one_host wanting configured (codes "https://r/v2/_catalog") fresh).0 ≡ ok (200, codes "{}")
unfolding get
exchanged = refl

abbrev tagged : Text → Result Text (List Text)
tagged repo = ok (codes "latest" ∷ codes "v1" ∷ [])

abbrev turned : Text → Result Text (List Text)
turned repo = ok (codes "v1" ∷ codes "latest" ∷ codes "v1" ∷ [])

same_tags :
    (reconcile_registry tagged turned (ok (codes "g/p" ∷ [])) (ok (codes "g/p" ∷ []))).in_sync
    ≡ true
unfolding reconcile_registry
same_tags = refl

reconcile_registry_iff_example :
    ((reconcile_registry tagged turned (ok (codes "g/p" ∷ [])) (ok (codes "g/p" ∷ []))).in_sync
      ≡ true)
    ↔ Listed tagged turned (ok (codes "g/p" ∷ [])) (ok (codes "g/p" ∷ []))
reconcile_registry_iff_example =
    reconcile_registry_iff tagged turned (ok (codes "g/p" ∷ [])) (ok (codes "g/p" ∷ []))
