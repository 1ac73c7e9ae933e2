-- ===== src/Config/Validate/Parts.antt =====
-- config.go, `validate`: the checks of single parts, and the predicates for them.
use syncctl.Base.{
  is_empty-eq, append-none, not-false, or_cases, ℕ, suc, Bool, true, false, not, ◌&&◌, ◌||◌, Option,
  none, some, List, [], ◌∷◌, All, ◌≡◌, refl, ◌⊎◌, inl, inr, arith, Text, codes, is_empty, text_eq,
  text_eq_iff, if◌then◌else◌,
}
use syncctl.Base.Result.{Result, ok, err}
use syncctl.Config.Types.{SiteConfig, SshPolicy, WebhookConfig}
use syncctl.Config.Validate.{
  Label, at_secondary, ConfigError, when, is_zero, primary_errors, parsed_errors, ssh_host_errors,
  each_secondary, policy_errors, tls_errors, git_errors,
}
use syncctl.Ssh.{Endpoint, HostError, parse_endpoint}

pub when-none : (b : Bool) (e : ConfigError) → when b e ≡ [] → b ≡ false
when-none true e h = cc
when-none false e h = refl

-- The fields of the primary that may not be left out.
pub record HasPrimaryFields (p : SiteConfig) : Type 0 where
  pub name_set : is_empty p.name ≡ false
  pub url_set : is_empty p.external_url ≡ false
  pub pg_host_set : is_empty p.postgres.host ≡ false
  pub pg_port_set : is_zero p.postgres.port ≡ false
  pub replication_user_set : is_empty p.postgres.replication_user ≡ false
  pub replication_password_set : is_empty p.postgres.replication_password ≡ false

pub primary_errors-none : (p : SiteConfig) → primary_errors p ≡ [] → HasPrimaryFields p
unfolding primary_errors
primary_errors-none p h =
    let (a, h1) = append-none (when (is_empty p.name) _) _ h in
    let (b, h2) = append-none (when (is_empty p.external_url) _) _ h1 in
    let (c, h3) = append-none (when (is_empty p.postgres.host) _) _ h2 in
    let (d, h4) = append-none (when (is_zero p.postgres.port) _) _ h3 in
    let (e, f) = append-none (when (is_empty p.postgres.replication_user) _) _ h4 in
    record {
      name_set = when-none _ _ a;
      url_set = when-none _ _ b;
      pg_host_set = when-none _ _ c;
      pg_port_set = when-none _ _ d;
      replication_user_set = when-none _ _ e;
      replication_password_set = when-none _ _ f;
    }

-- A host is left out or can be parsed.
abbrev pub HasEndpoint : Text → Type 0
HasEndpoint host = (host ≡ []) ⊎ ((e : Endpoint) × (parse_endpoint host ≡ ok e))

parsed_errors-none :
    (label : Label) (r : Result HostError Endpoint)
    → parsed_errors label r ≡ []
    → (e : Endpoint) × (r ≡ ok e)
unfolding parsed_errors
parsed_errors-none label (ok e) h = (e, refl)
parsed_errors-none label (err e) h = cc

pub if-none :
    (b : Bool) (es : List ConfigError) → (if b then [] else es) ≡ [] → (b ≡ true) ⊎ (es ≡ [])
if-none true es h = inl refl
if-none false es h = inr h

pub ssh_host_errors-none :
    (label : Label) (host : Text) → ssh_host_errors label host ≡ [] → HasEndpoint host
unfolding ssh_host_errors
ssh_host_errors-none label host h = elim (if-none (is_empty host) _ h) [
  | inl empty ↦ inl (is_empty-eq host empty)
  | inr good ↦ inr (parsed_errors-none label (parse_endpoint host) good)
]

pub each_secondary-none :
    (check : Label → SiteConfig → List ConfigError) (P : SiteConfig → Type 0)
    → ((label : Label) (s : SiteConfig) → check label s ≡ [] → P s)
    → (i : ℕ) (sites : List SiteConfig) → each_secondary check i sites ≡ []
    → All P sites
unfolding each_secondary
each_secondary-none check P f i [] h = tt
each_secondary-none check P f i (s ∷ rest) h =
    let (a, b) = append-none (check (at_secondary i) s) _ h in
    (f (at_secondary i) s a, each_secondary-none check P f (suc i) rest b)

-- A value of `StrictHostKeyChecking` that `ssh` knows, or none.
pub data IsChecking : Text → Type 0 where
  unset : IsChecking []
  checked_yes : IsChecking (codes "yes")
  checked_no : IsChecking (codes "no")
  accepts_new : IsChecking (codes "accept-new")

IsChecking-eq : (s t : Text) → text_eq s t ≡ true → IsChecking t → IsChecking s
IsChecking-eq s t h k = rw ((text_eq_iff s t).0 h) k

known_mode :
    (m : Text)
    → (is_empty m
        || text_eq m (codes "yes")
        || text_eq m (codes "no")
        || text_eq m (codes "accept-new"))
      ≡ true
    → IsChecking m
known_mode m h = elim (or_cases _ (text_eq m (codes "accept-new")) h) [
  | inr newly ↦ IsChecking-eq m _ newly accepts_new
  | inl h1 ↦ elim (or_cases _ (text_eq m (codes "no")) h1) [
    | inr never ↦ IsChecking-eq m _ never checked_no
    | inl h2 ↦ elim (or_cases (is_empty m) (text_eq m (codes "yes")) h2) [
      | inr always ↦ IsChecking-eq m _ always checked_yes
      | inl empty ↦ rw (is_empty-eq m empty) unset
    ]
  ]
]

pub policy_errors-none :
    (p : SshPolicy) → policy_errors p ≡ [] → IsChecking p.strict_host_key_checking
unfolding policy_errors
policy_errors-none p h = known_mode p.strict_host_key_checking (not-false _ (when-none _ _ h))

-- Certificate and key are set together.
pub data IsTls : Option WebhookConfig → Type 0 where
  no_webhook : IsTls none
  paired : (w : WebhookConfig) → is_empty w.tls_cert ≡ is_empty w.tls_key → IsTls (some w)

pub tls_errors-none : (w : Option WebhookConfig) → tls_errors w ≡ [] → IsTls w
unfolding tls_errors
tls_errors-none none h = no_webhook
tls_errors-none (some w) h = paired w (ground arith)

-- The mode is `fetch`, or `rsync` with a path.
pub data IsGitMode (p : SiteConfig) : Type 0 where
  fetches : p.git.mode ≡ codes "fetch" → IsGitMode p
  copies : p.git.mode ≡ codes "rsync" → is_empty p.git.repos_path ≡ false → IsGitMode p

pub and_false : (a b : Bool) → (a && b) ≡ false → a ≡ true → b ≡ false
and_false a b h k = ground arith

pub git_errors-none : (p : SiteConfig) → git_errors p ≡ [] → IsGitMode p
unfolding git_errors
git_errors-none p h =
    let (_, h1) = append-none (when (is_empty p.git.mode) _) _ h in
    let (known, path) =
      append-none
        (when (not (text_eq p.git.mode (codes "rsync") || text_eq p.git.mode (codes "fetch"))) _) _
        h1 in
    elim (or_cases (text_eq p.git.mode (codes "rsync")) _ (not-false _ (when-none _ _ known))) [
      | inl rsync ↦
          copies ((text_eq_iff p.git.mode _).0 rsync)
            (and_false _ (is_empty p.git.repos_path) (when-none _ _ path) rsync)
      | inr fetch ↦ fetches ((text_eq_iff p.git.mode _).0 fetch)
    ]
