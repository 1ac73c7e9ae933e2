-- ===== src/Registry/Compare.antt =====
-- registry/reconciler.go: the endpoints of a site, the two listings, and the comparison of what both
-- sites list. A map to `true` is a list without repetitions. The decoders of the JSON bodies are
-- parameters, and so are the answers of the listings in the comparison.
use syncctl.Base.{
  ℕ, ◌+◌, Bool, true, false, not, ◌&&◌, ◌||◌, Option, none, some, List, [], ◌∷◌, ◌++◌, any, all,
  length, ltb, ◌==◌, Text, codes, is_empty, text_eq, if◌then◌else◌,
}
use syncctl.Base.Result.{Result, ok, err}
use syncctl.Effects.{◌>>=◌, return}
use syncctl.Config.Types.{SiteConfig, RegistryConfig}
use syncctl.Registry.Auth.{Url, Urls, Authenticator, RegistryWorld, new_authenticator}
use syncctl.Registry.Token.{Exchange, get}

-- `strings.TrimSuffix(s, "/")`
unfoldable pub trim_slash : Text → Text
trim_slash [] = []
trim_slash (c ∷ []) = if c == b'/' then [] else c ∷ []
trim_slash (c ∷ d ∷ s) = c ∷ trim_slash (d ∷ s)

abbrev base_of : Option RegistryConfig → Text
base_of none = []
base_of (some r) = if is_empty r.url then [] else trim_slash r.url ++ codes "/v2"

-- `registryBaseURL`
unfoldable pub registry_base_url : SiteConfig → Text
unfolding trim_slash
registry_base_url s = base_of s.registry

abbrev static_token : Option RegistryConfig → Text
static_token none = []
static_token (some r) = r.token

-- `registryToken`
unfoldable pub registry_token : SiteConfig → Text
registry_token s = static_token s.registry

-- `Reconciler`: the endpoint and the authenticator of each site
pub record Endpoints : Type 0 where
  pub primary_url : Text
  pub secondary_url : Text
  pub primary_auth : Authenticator
  pub secondary_auth : Authenticator

pub data ListError : Type 0 where
  list_status : ℕ → ListError
  list_undecoded : ListError

module _ (urls : Urls) where
  abbrev host_of : Option Url → List Text
  host_of none = []
  host_of (some u) = if is_empty u.hostname then [] else u.hostname ∷ []

  -- `add` of `realmHosts`
  unfoldable pub hosts_of : Text → List Text
  hosts_of raw = if is_empty raw then [] else host_of (urls.parse raw)

  abbrev registry_hosts : Option RegistryConfig → List Text
  registry_hosts none = []
  registry_hosts (some r) = hosts_of r.url ++ hosts_of r.auth_realm

  -- `realmHosts`
  unfoldable pub realm_hosts : SiteConfig → List Text
  unfolding hosts_of
  realm_hosts s = hosts_of s.external_url ++ registry_hosts s.registry

  abbrev is_plain : Option Url → Bool
  is_plain none = false
  is_plain (some u) = text_eq u.scheme (codes "http")

  abbrev insecure_of : Option RegistryConfig → Bool
  insecure_of none = false
  insecure_of (some r) = if is_empty r.url then false else is_plain (urls.parse r.url)

  -- `insecureRegistry`
  unfoldable pub insecure_registry : SiteConfig → Bool
  unfolding text_eq
  insecure_registry s = insecure_of s.registry

  -- The authenticator of a site.
  unfoldable pub site_authenticator : SiteConfig → Authenticator
  unfolding new_authenticator registry_token realm_hosts insecure_registry
  site_authenticator s =
      new_authenticator urls (registry_token s) (realm_hosts s) (insecure_registry s)

  -- `New`; there is no reconciler if a site has no endpoint.
  unfoldable pub new_registry : SiteConfig → SiteConfig → Option Endpoints
  unfolding registry_base_url site_authenticator
  new_registry primary secondary =
      if is_empty (registry_base_url primary) || is_empty (registry_base_url secondary)
      then none
      else some (record {
        primary_url = registry_base_url primary;
        secondary_url = registry_base_url secondary;
        primary_auth = site_authenticator primary;
        secondary_auth = site_authenticator secondary;
      })

  module _ (w : RegistryWorld) (a : Authenticator) (decode : Text → Option (List Text)) where
    abbrev decoded : Option (List Text) → Result ListError (List Text)
    decoded none = err list_undecoded
    decoded (some names) = ok names

    abbrev read_listing : ℕ × Text → Result ListError (List Text)
    read_listing (status, body) =
        if not (status == 200) then err (list_status status) else decoded (decode body)

    -- `listRepositories`, and `listTags` before the tags are made a set; the outer error is that of `get`.
    unfoldable pub list_repositories : Text → Exchange (Result ListError (List Text))
    unfolding get
    list_repositories base =
        get urls w a (base ++ codes "/_catalog?n=1000") >>= λ reply. return (read_listing reply)

    unfoldable pub list_tags : Text → Text → Exchange (Result ListError (List Text))
    unfolding get
    list_tags base repo = get urls w a (base ++ (b'/' ∷ (repo ++ codes "/tags/list"))) >>= λ reply.
        return (read_listing reply)

-- `m[k]` on a set
unfoldable pub has : List Text → Text → Bool
unfolding text_eq
has set k = any (text_eq k) set

-- `toSet`
unfoldable pub to_set : List Text → List Text
unfolding has
to_set [] = []
to_set (v ∷ vs) = let rest = to_set vs in if has rest v then rest else v ∷ rest

-- `setDiff`
unfoldable pub set_diff : List Text → List Text → List Text
unfolding has
set_diff [] b = []
set_diff (k ∷ a) b = let rest = set_diff a b in if has b k then rest else k ∷ rest

-- `equalSet`
unfoldable pub equal_set : List Text → List Text → Bool
unfolding has
equal_set a b = if not (length a == length b) then false else all (has b) a

-- `Result`, with its detail as a value
pub data RegistryDetail : Type 0 where
  primary_listing secondary_listing : RegistryDetail
  -- drifted, of all
  tag_drift : ℕ → ℕ → RegistryDetail
  repo_drift : ℕ → ℕ → RegistryDetail
  registry_in_sync : ℕ → RegistryDetail

pub record RegistryOutcome : Type 0 where
  pub in_sync : Bool
  pub detail : RegistryDetail
  pub remaining : ℕ

module _ {E : Type 0} where
  -- The tags of a repository differ, or one of the listings fails.
  unfoldable pub tags_differ : Result E (List Text) → Result E (List Text) → Bool
  unfolding to_set equal_set
  tags_differ (err e) s = true
  tags_differ (ok p) (err e) = true
  tags_differ (ok p) (ok s) = not (equal_set (to_set p) (to_set s))

  module _ (primary_tags secondary_tags : Text → Result E (List Text)) where
    unfoldable pub drifting : List Text → ℕ
    unfolding tags_differ
    drifting [] = 0
    drifting (repo ∷ repos) =
        (if tags_differ (primary_tags repo) (secondary_tags repo) then 1 else 0) + drifting repos

    unfoldable pub judge_tags : ℕ → ℕ → RegistryOutcome
    judge_tags drift total =
        if ltb 0 drift
        then record { in_sync = false; detail = tag_drift drift total; remaining = drift }
        else record { in_sync = true; detail = registry_in_sync total; remaining = 0 }

    abbrev pub judge_repos : ℕ → ℕ → List Text → RegistryOutcome
    judge_repos missing extra repos =
        if missing == 0 && extra == 0 then judge_tags (drifting repos) (length repos) else record {
          in_sync = false;
          detail = repo_drift missing extra;
          remaining = missing + extra;
        }

    -- `Reconcile`, by the answers of the listings
    unfoldable pub reconcile_registry :
        Result E (List Text) → Result E (List Text) → RegistryOutcome
    unfolding drifting judge_tags set_diff to_set
    reconcile_registry (err e) s = record {
      in_sync = false;
      detail = primary_listing;
      remaining = 1;
    }
    reconcile_registry (ok p) (err e) = record {
      in_sync = false;
      detail = secondary_listing;
      remaining = 1;
    }
    reconcile_registry (ok p) (ok s) =
        judge_repos (length (set_diff (to_set p) (to_set s)))
          (length (set_diff (to_set s) (to_set p))) (to_set p)
