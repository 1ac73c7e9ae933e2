-- ===== src/Config/Validate/Sound.antt =====
-- config.go, `validate`: the predicate for a whole configuration.
use syncctl.Base.{
  is_empty-eq, append-none, ℕ, suc, Bool, true, false, not, ◌&&◌, ◌||◌, Option, none, some, List,
  [], ◌∷◌, any, All, ◌≡◌, ◌≢◌, refl, inl, inr, Text, codes, is_empty, text_eq, if◌then◌else◌,
}
use syncctl.Config.Types.{Config, SiteConfig}
use syncctl.Config.Validate.{
  Label, at_primary, ConfigError, Url, when, primary_errors, ssh_host_errors, ssh_errors,
  policy_errors, tls_errors, git_errors, secondary_errors, secondaries_errors,
  no_secondaries_errors, parsed_url_errors, url_errors, external_url_errors, validate,
}
use syncctl.Config.Validate.Parts.{
  HasPrimaryFields, HasEndpoint, IsChecking, IsTls, IsGitMode, when-none, primary_errors-none,
  if-none, ssh_host_errors-none, each_secondary-none, policy_errors-none, tls_errors-none,
  git_errors-none, and_false,
}

-- A secondary with its fields, whose name is none of those before.
pub record IsSecondary (seen : List Text) (s : SiteConfig) : Type 0 where
  pub name_set : is_empty s.name ≡ false
  pub name_new : any (text_eq s.name) seen ≡ false
  pub pg_host_set : is_empty s.postgres.host ≡ false
  pub password_set : is_empty s.postgres.replication_password ≡ false

pub data AreSecondaries : List Text → List SiteConfig → Type 0 where
  end : {seen : List Text} → AreSecondaries seen []
  also :
      {seen : List Text} {s : SiteConfig} {rest : List SiteConfig}
      → IsSecondary seen s
      → AreSecondaries (s.name ∷ seen) rest
      → AreSecondaries seen (s ∷ rest)

secondary_errors-none :
    (i : ℕ) (seen : List Text) (s : SiteConfig)
    → secondary_errors i seen s ≡ []
    → IsSecondary seen s
unfolding secondary_errors
secondary_errors-none i seen s h =
    let (a, h1) = append-none (when (is_empty s.name) _) _ h in
    let (b, h2) = append-none (when (not (is_empty s.name) && any (text_eq s.name) seen) _) _ h1 in
    let (c, d) = append-none (when (is_empty s.postgres.host) _) _ h2 in
    let set = when-none (is_empty s.name) _ a in
    record {
      name_set = set;
      name_new = and_false (not (is_empty s.name)) _ (when-none _ _ b) (rw set refl);
      pg_host_set = when-none _ _ c;
      password_set = when-none _ _ d;
    }

secondaries_errors-none :
    (i : ℕ) (seen : List Text) (sites : List SiteConfig)
    → secondaries_errors i seen sites ≡ []
    → AreSecondaries seen sites
unfolding secondaries_errors
secondaries_errors-none i seen [] h = end
secondaries_errors-none i seen (s ∷ rest) h =
    let (a, b) = append-none (secondary_errors i seen s) _ h in
    also (secondary_errors-none i seen s a) (secondaries_errors-none (suc i) (s.name ∷ seen) rest b)

module _ (parse_url : Text → Option Url) where
  -- A URL is left out, or it has a host and one of the two schemes.
  pub data HasUrl (raw : Text) : Type 0 where
    no_url : raw ≡ [] → HasUrl raw
    parsed :
        (u : Url)
        → parse_url raw ≡ some u
        → (text_eq u.scheme (codes "https") || text_eq u.scheme (codes "http")) ≡ true
        → is_empty u.host ≡ false
        → HasUrl raw

  if-else-none :
      (b : Bool) (es : List ConfigError) (e : ConfigError)
      → (if b then es else e ∷ []) ≡ []
      → (b ≡ true) × (es ≡ [])
  if-else-none true es e h = (refl, h)
  if-else-none false es e h = cc

  parsed_url_errors-none :
      (label : Label) (raw : Text) (u : Option Url)
      → parse_url raw ≡ u
      → parsed_url_errors parse_url label raw u ≡ []
      → HasUrl raw
  unfolding parsed_url_errors
  parsed_url_errors-none label raw none is h = cc
  parsed_url_errors-none label raw (some u) is h =
      let (scheme, host) =
        if-else-none (text_eq u.scheme (codes "https") || text_eq u.scheme (codes "http")) _ _ h in
      parsed u is scheme (when-none _ _ host)

  url_errors-none : (label : Label) (raw : Text) → url_errors parse_url label raw ≡ [] → HasUrl raw
  unfolding url_errors
  url_errors-none label raw h = elim (if-none (is_empty raw) _ h) [
    | inl empty ↦ no_url (is_empty-eq raw empty)
    | inr good ↦ parsed_url_errors-none label raw (parse_url raw) refl good
  ]

  -- All that a configuration must fulfil.
  pub record IsValid (c : Config) : Type 0 where
    pub primary_fields : HasPrimaryFields c.primary
    pub primary_host : HasEndpoint c.primary.ssh_host
    pub secondary_hosts : All (λ (s : SiteConfig). HasEndpoint s.ssh_host) c.secondaries
    pub checking : IsChecking c.ssh.strict_host_key_checking
    pub primary_url : HasUrl c.primary.external_url
    pub secondary_urls : All (λ (s : SiteConfig). HasUrl s.external_url) c.secondaries
    pub tls : IsTls c.webhook
    pub git_mode : IsGitMode c.primary
    pub has_secondary : c.secondaries ≢ []
    pub secondaries_fine : AreSecondaries [] c.secondaries

  no_secondaries_errors-none :
      (sites : List SiteConfig) → no_secondaries_errors sites ≡ [] → sites ≢ []
  unfolding no_secondaries_errors
  no_secondaries_errors-none [] h = cc
  no_secondaries_errors-none (s ∷ rest) h = λ k. cc

  -- A configuration that `validate` finds no error in has all that it must have: the fields of the
  -- primary and of each secondary, distinct names, hosts for SSH that can be parsed or are left
  -- out, a known checking mode, URLs by http or https with a host, certificate and key together,
  -- a known mode for git with the path it needs, and at least one secondary.
  pub validate-IsValid : (c : Config) → (validate parse_url c).0 ≡ [] → IsValid c
  unfolding validate ssh_errors external_url_errors
  validate-IsValid c h =
      let (primary, h1) = append-none (primary_errors c.primary) _ h in
      let (ssh, h2) = append-none (ssh_errors c) _ h1 in
      let (policy, h3) = append-none (policy_errors c.ssh) _ h2 in
      let (urls, h4) = append-none (external_url_errors parse_url c) _ h3 in
      let (tls, h5) = append-none (tls_errors c.webhook) _ h4 in
      let (git, h6) = append-none (git_errors c.primary) _ h5 in
      let (some_site, sites) = append-none (no_secondaries_errors c.secondaries) _ h6 in
      let (host, hosts) = append-none (ssh_host_errors at_primary c.primary.ssh_host) _ ssh in
      let (url, site_urls) =
        append-none (url_errors parse_url at_primary c.primary.external_url) _ urls in
      record {
        primary_fields = primary_errors-none c.primary primary;
        primary_host = ssh_host_errors-none at_primary c.primary.ssh_host host;
        secondary_hosts =
            each_secondary-none _ (λ s. HasEndpoint s.ssh_host)
              (λ label s. ssh_host_errors-none label s.ssh_host) 0 c.secondaries hosts;
        checking = policy_errors-none c.ssh policy;
        primary_url = url_errors-none at_primary c.primary.external_url url;
        secondary_urls =
            each_secondary-none _ (λ s. HasUrl s.external_url)
              (λ label s. url_errors-none label s.external_url) 0 c.secondaries site_urls;
        tls = tls_errors-none c.webhook tls;
        git_mode = git_errors-none c.primary git;
        has_secondary = no_secondaries_errors-none c.secondaries some_site;
        secondaries_fine = secondaries_errors-none 0 [] c.secondaries sites;
      }
