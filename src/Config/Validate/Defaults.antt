-- ===== src/Config/Validate/Defaults.antt =====
-- config.go, `validate`: the defaults.
use syncctl.Base.{Bool, false, Option, none, some, ◌≡◌, refl, codes, is_empty, Bool-cases, inl, inr}
use syncctl.Base.Int.{pos}
use syncctl.Config.Types.{Config, FailoverConfig, Fraction, SyncConfig}
use syncctl.Config.Validate.{is_zero, or_default, failover_defaults, sync_defaults, set_defaults}

-- Where a value is set, and where the default counts as set, a second pass changes nothing.
again :
    {A : Type 0} (unset : A → Bool) (default value : A)
    → unset default ≡ false
    → or_default
        (unset (or_default (unset value) default value))
        default
        (or_default (unset value) default value)
      ≡ or_default (unset value) default value
again unset default value set = elim (Bool-cases (unset value)) [
  | inl missing ↦ rw (missing, set) refl
  | inr present ↦ rw (present, present) refl
]

failover_defaults_twice :
    (f : Option FailoverConfig) → failover_defaults (failover_defaults f) ≡ failover_defaults f
unfolding failover_defaults
failover_defaults_twice none = refl
failover_defaults_twice (some f) =
    rw
      (
        again is_zero (pos 10000000000) f.health_check_interval refl,
        again is_zero (pos 1) f.quorum_required refl,
        again is_empty (codes "none") f.dns_plugin refl,
      )
      refl

sync_defaults_twice : (s : SyncConfig) → sync_defaults (sync_defaults s) ≡ sync_defaults s
unfolding sync_defaults
sync_defaults_twice s =
    rw
      (
        again is_zero (pos 300000000000) s.sweep_interval refl,
        again is_zero (pos 30000000000) s.lag_warning_threshold refl,
        again is_zero (pos 300000000000) s.lag_critical_threshold refl,
        again (λ (x : Fraction). is_zero x.numerator)
            (record { numerator = pos 1; denominator = 100 }) s.consistency_sample_pct refl,
      )
      refl

-- Filling in the defaults twice is filling them in once.
pub set_defaults_twice : (c : Config) → set_defaults (set_defaults c) ≡ set_defaults c
unfolding set_defaults
set_defaults_twice c =
    rw
      (
        failover_defaults_twice c.failover,
        sync_defaults_twice c.sync,
        again is_empty (codes "127.0.0.1:9101") c.metrics.addr refl,
        again is_empty (codes "info") c.log.level refl,
        again is_empty (codes "json") c.log.format refl,
      )
      refl
