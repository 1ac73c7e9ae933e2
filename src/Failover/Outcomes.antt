-- ===== src/Failover/Outcomes.antt =====
-- failover.go, `Promote` as a dry run, and `verifyDBKeyParity`.
use syncctl.Base.{
  Bool, true, false, not, ◌&&◌, ◌||◌, List, [], ◌∷◌, ◌≡◌, refl, sym, ◌∙◌, Text, is_empty,
  if◌then◌else◌,
}
use syncctl.Base.Result.{Result, ok, err}
use syncctl.Config.Types.{SiteConfig}
use syncctl.Dbkey.Mismatch.{Mismatch, check_keys-Mismatch}
use syncctl.Dbkey.{CheckError, primary_key, secondary_key, key_mismatch, check_keys}
use syncctl.Effects.{World, Log, combined_output}
use syncctl.Failover.Promotion.{promotion_steps, promote_found, promote_site, promote}
use syncctl.Failover.Steps.{Step, run_steps, judge, verify_db_key_parity}
use syncctl.Failover.Targets.{find_secondary}
use syncctl.Failover.{Controller, State, FailoverError, failover_disabled, keys_differ, set_log}

run_steps_dry : (steps : List Step) (s : State) → run_steps true steps s ≡ (ok tt, s)
unfolding run_steps
run_steps_dry [] s = refl
run_steps_dry (step ∷ steps) s = run_steps_dry steps s

set_log-result : (s : State) (r : Result CheckError (Unit {0}) × Log) → (set_log s r).0 ≡ r.0
set_log-result s (r, l) = refl

module _ (w : World) (c : Controller) where
  dry_site :
      (site : SiteConfig) (s : State) (dry : Bool)
      → dry ≡ true
      → (if not dry && not c.cfg.sync.failover_enabled
          then (err failover_disabled, s)
          else run_steps dry (promotion_steps w c site) s)
        ≡ (ok tt, s)
  dry_site site s true h = run_steps_dry (promotion_steps w c site) s
  dry_site site s false h = cc

  -- A dry run of the promotion of a known secondary succeeds, asks nothing of the outside and
  -- leaves the state as it was, whether or not failover is enabled.
  pub promote-dry_run :
      (name : Text) (s : State) {site : SiteConfig}
      → find_secondary c.cfg name ≡ ok site
      → c.dry_run ≡ true
      → promote w c name s ≡ (ok tt, s)
  unfolding promote promote_site
  promote-dry_run name s {site} found dry =
      rw (found, promote_found) (dry_site site s c.dry_run dry)

  judge-err :
      (r : Result CheckError (Unit {0}) × State) {e : FailoverError}
      → (judge w c r).0 ≡ err e
      → (r.0 ≡ err key_mismatch) × (e ≡ keys_differ key_mismatch)
  unfolding judge
  judge-err (ok _, s) h = cc
  judge-err (err (primary_key _), s) h = cc
  judge-err (err (secondary_key _), s) h = cc
  judge-err (err key_mismatch, s) h = (refl, cc)

  -- The keys of both sites, as the check of their parity finds them.
  abbrev pub parity : SiteConfig → Log → Result CheckError (Unit {0}) × Log
  parity site = check_keys w (combined_output w c.ssh_cfg) c.cfg.primary.ssh_host site.ssh_host

  guarded_judge :
      (a b : Bool) (r : Result CheckError (Unit {0}) × State) (s : State) {e : FailoverError}
      → (if a || b then (ok tt, s) else judge w c r).0 ≡ err e
      → (a ≡ false) × (b ≡ false) × (r.0 ≡ err key_mismatch) × (e ≡ keys_differ key_mismatch)
  guarded_judge true b r s h = cc
  guarded_judge false true r s h = cc
  guarded_judge false false r s h = let (found, same) = judge-err r h in (refl, refl, found, same)

  -- The parity check stops a promotion only where the hosts of both sites are configured, a key was
  -- found in what each of them printed, and the two are not the same; the error says so.
  pub verify_db_key_parity-err :
      (site : SiteConfig) (s : State) {e : FailoverError}
      → (verify_db_key_parity w c site s).0 ≡ err e
      → (is_empty c.cfg.primary.ssh_host ≡ false)
        × (is_empty site.ssh_host ≡ false)
        × Mismatch w (combined_output w c.ssh_cfg) c.cfg.primary.ssh_host site.ssh_host s.log
        × (e ≡ keys_differ key_mismatch)
  unfolding verify_db_key_parity
  verify_db_key_parity-err site s h =
      let (a, b, found, same) =
        guarded_judge (is_empty c.cfg.primary.ssh_host) (is_empty site.ssh_host)
          (set_log s (parity site s.log)) s h in
      (
        a,
        b,
        check_keys-Mismatch w (combined_output w c.ssh_cfg) c.cfg.primary.ssh_host site.ssh_host
            s.log (sym (set_log-result s (parity site s.log)) ∙ found),
        same,
      )
