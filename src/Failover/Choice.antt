-- ===== src/Failover/Choice.antt =====
-- failover.go, `findSecondary` and `autoFailoverTarget`: which secondary is chosen.
use mathlib.Core.Path.{subst}
use syncctl.Base.{
  is_empty-eq, Bool, true, false, not, some, List, [], ◌∷◌, ◌++◌, all, ◌≡◌, refl, sym, ◌∙◌, ap, inl,
  inr, arith, Text, is_empty, text_eq, text_eq_iff, if◌then◌else◌, Bool-cases,
}
use syncctl.Base.Result.{Result, ok, err}
use syncctl.Config.Types.{Config, SiteConfig}
use syncctl.Failover.Targets.{
  find_site, find_secondary, sole_secondary, named_target, name_of, known_target,
  auto_failover_target,
}
use syncctl.Failover.{FailoverError}

-- The site has the name and is the first of the list that has it.
pub record FirstNamed (sites : List SiteConfig) (name : Text) (site : SiteConfig) : Type 0 where
  pub before : List SiteConfig
  pub after : List SiteConfig
  pub listed : sites ≡ before ++ site ∷ after
  pub named : site.name ≡ name
  pub first : all (λ (s : SiteConfig). not (text_eq s.name name)) before ≡ true

FirstNamed-later :
    (t : SiteConfig) (sites : List SiteConfig) (name : Text) {site : SiteConfig}
    → text_eq t.name name ≡ false
    → FirstNamed sites name site
    → FirstNamed (t ∷ sites) name site
FirstNamed-later t sites name other h = record {
  before = t ∷ h.before;
  after = h.after;
  listed = ap (λ x. t ∷ x) h.listed;
  named = h.named;
  first = rw other h.first;
}

-- The test on the head, with the rest already searched.
headed-FirstNamed :
    (t : SiteConfig) (sites : List SiteConfig) (name : Text) (same : Bool) {site : SiteConfig}
    → text_eq t.name name ≡ same
    → (find_site sites name ≡ some site → FirstNamed sites name site)
    → (if same then some t else find_site sites name) ≡ some site
    → FirstNamed (t ∷ sites) name site
headed-FirstNamed t sites name true {site} same later found =
    let here : t ≡ site = cc in
    record {
      before = [];
      after = sites;
      listed = ap (λ x. x ∷ sites) here;
      named = ap (λ (s : SiteConfig). s.name) (sym here) ∙ (text_eq_iff t.name name).0 same;
      first = refl;
    }
headed-FirstNamed t sites name false other later found =
    FirstNamed-later t sites name other (later found)

find_site-FirstNamed :
    (sites : List SiteConfig) (name : Text) {site : SiteConfig}
    → find_site sites name ≡ some site
    → FirstNamed sites name site
unfolding find_site
find_site-FirstNamed [] name found = cc
find_site-FirstNamed (t ∷ sites) name found =
    headed-FirstNamed t sites name (text_eq t.name name) refl (find_site-FirstNamed sites name)
      found

find_secondary-ok :
    (cfg : Config) (name : Text) {site : SiteConfig}
    → find_secondary cfg name ≡ ok site
    → find_site cfg.secondaries name ≡ some site
unfolding find_secondary
find_secondary-ok cfg name found = ground arith

-- Where a secondary is found by its name, it is the first of the configuration with that name.
find_secondary-FirstNamed :
    (cfg : Config) (name : Text) {site : SiteConfig}
    → find_secondary cfg name ≡ ok site
    → FirstNamed cfg.secondaries name site
find_secondary-FirstNamed cfg name found =
    find_site-FirstNamed cfg.secondaries name (find_secondary-ok cfg name found)

-- A target that automatic failover may promote: the secondary that the configuration names, or the
-- only one there is.
pub data IsTarget (cfg : Config) (name : Text) : Type 0 where
  configured :
      named_target cfg.failover ≡ name
      → (site : SiteConfig) → FirstNamed cfg.secondaries name site
      → IsTarget cfg name
  only :
      named_target cfg.failover ≡ []
      → (site : SiteConfig) → cfg.secondaries ≡ site ∷ []
      → site.name ≡ name
      → IsTarget cfg name

known_target-IsTarget :
    (cfg : Config) (r : Result FailoverError SiteConfig) {name : Text}
    → find_secondary cfg (named_target cfg.failover) ≡ r
    → known_target (named_target cfg.failover) r ≡ ok name
    → IsTarget cfg name
unfolding known_target
known_target-IsTarget cfg (err e) found h = cc
known_target-IsTarget cfg (ok site) {name} found h =
    let same : named_target cfg.failover ≡ name = cc in
    configured same site (
      subst (λ n. FirstNamed cfg.secondaries n site) same
        (find_secondary-FirstNamed cfg (named_target cfg.failover) found))

sole_secondary-IsTarget :
    (cfg : Config) (sites : List SiteConfig) {name : Text}
    → named_target cfg.failover ≡ []
    → cfg.secondaries ≡ sites
    → name_of (sole_secondary sites) ≡ ok name
    → IsTarget cfg name
unfolding name_of sole_secondary
sole_secondary-IsTarget cfg [] unnamed listed h = cc
sole_secondary-IsTarget cfg (s ∷ []) unnamed listed h = only unnamed s listed cc
sole_secondary-IsTarget cfg (s ∷ t ∷ rest) unnamed listed h = cc

-- Automatic failover promotes the secondary that `promote_secondary` names, the first of that
-- name, or, where it names none, the only secondary; it never chooses among several.
pub auto_failover_target-IsTarget :
    (cfg : Config) {name : Text} → auto_failover_target cfg ≡ ok name → IsTarget cfg name
unfolding auto_failover_target
auto_failover_target-IsTarget cfg h = elim (Bool-cases (is_empty (named_target cfg.failover))) [
  | inl unnamed ↦
      sole_secondary-IsTarget cfg cfg.secondaries (is_empty-eq (named_target cfg.failover) unnamed)
        refl (rw unnamed at h)
  | inr set ↦ known_target-IsTarget cfg _ refl (rw set at h)
]
