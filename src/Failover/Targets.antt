-- ===== src/Failover/Targets.antt =====
-- internal/failover/failover.go: which secondary an operation is about.
use syncctl.Base.{Option, none, some, List, [], ◌∷◌, Text, is_empty, text_eq, not, if◌then◌else◌}
use syncctl.Base.Result.{Result, ok, err}
use syncctl.Config.Types.{Config, SiteConfig, FailoverConfig}
use syncctl.Failover.{
  FailoverError, secondary_not_found, no_secondaries, ambiguous_secondary,
  promote_secondary_unknown,
}

-- The first secondary of that name.
unfoldable pub find_site : List SiteConfig → Text → Option SiteConfig
unfolding text_eq
find_site [] name = none
find_site (s ∷ sites) name =
    let rest = find_site sites name in if text_eq s.name name then some s else rest

unfoldable pub find_secondary : Config → Text → Result FailoverError SiteConfig
unfolding find_site
find_secondary cfg name = elim (find_site cfg.secondaries name) [
  | none ↦ err (secondary_not_found name)
  | some s ↦ ok s
]

-- The only secondary, or a refusal to choose by the order of the configuration.
unfoldable pub sole_secondary : List SiteConfig → Result FailoverError SiteConfig
sole_secondary [] = err no_secondaries
sole_secondary (s ∷ []) = ok s
sole_secondary (s ∷ t ∷ rest) = err ambiguous_secondary

-- `failover.promote_secondary`, empty where there is no block
unfoldable pub named_target : Option FailoverConfig → Text
named_target none = []
named_target (some f) = f.promote_secondary

unfoldable pub name_of : Result FailoverError SiteConfig → Result FailoverError Text
name_of (ok s) = ok s.name
name_of (err e) = err e

unfoldable pub known_target : Text → Result FailoverError SiteConfig → Result FailoverError Text
known_target name (ok s) = ok name
known_target name (err e) = err (promote_secondary_unknown e)

-- `autoFailoverTarget`
unfoldable pub auto_failover_target : Config → Result FailoverError Text
unfolding named_target known_target find_secondary name_of sole_secondary
auto_failover_target cfg =
    let name = named_target cfg.failover in
    if not (is_empty name)
    then known_target name (find_secondary cfg name)
    else name_of (sole_secondary cfg.secondaries)

-- `ResolveNewPrimary`
unfoldable pub resolve_new_primary : Config → Text → Result FailoverError SiteConfig
unfolding find_secondary sole_secondary
resolve_new_primary cfg name =
    if not (is_empty name) then find_secondary cfg name else sole_secondary cfg.secondaries
