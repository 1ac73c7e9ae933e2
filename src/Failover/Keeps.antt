-- ===== src/Failover/Keeps.antt =====
-- failover.go, `Promote`: what it does to the counter of failed checks.
use syncctl.Base.{
  Bool, true, false, not, is_empty, ◌||◌, ◌&&◌, ◌≡◌, refl, ◌∙◌, Text, List, [], ◌∷◌, if_both,
}
use syncctl.Base.Result.{Result, ok, err}
use syncctl.Config.Types.{SiteConfig}
use syncctl.Effects.{World, Log, go_on, wrap, wrap_result, combined_output}
use syncctl.Failover.Health.{count_failures, reaches, verify_primary_down}
use syncctl.Failover.Promotion.{promotion_steps, promote_found, promote_site, promote}
use syncctl.Failover.Steps.{
  Step, run_steps, stop_command, promote_command, start_command, disable_read_only, ssh_checked,
  ssh_secondary, judge, verify_db_key_parity,
}
use syncctl.Failover.Targets.{find_secondary}
use syncctl.Failover.{Controller, State, FailoverError, step_failed, ssh_failed, Act, lift}
use syncctl.Dbkey.{CheckError, primary_key, secondary_key, key_mismatch}
use syncctl.Ssh.{HostError, check_host}

-- The counter is the same, and it is not taken back that the primary is down.
pub record Keeps (s t : State) : Type 0 where
  pub same_count : t.consecutive_fails ≡ s.consecutive_fails
  pub still_down : s.primary_down ≡ true → t.primary_down ≡ true

Keeps-log : (s : State) (l : Log) → Keeps s (record s { log = l })
Keeps-log s l = record { same_count = refl; still_down = λ h. h }

Keeps-refl : (s : State) → Keeps s s
Keeps-refl s = record { same_count = refl; still_down = λ h. h }

Keeps-trans : (s t u : State) → Keeps s t → Keeps t u → Keeps s u
Keeps-trans s t u a b = record {
  same_count = b.same_count ∙ a.same_count;
  still_down = λ h. b.still_down (a.still_down h);
}

abbrev KeepsAll : Act (Unit {0}) → Type 0
KeepsAll act = (s : State) → Keeps s (act s).1

abbrev Kept : State → Result FailoverError (Unit {0}) × State → Type 0
Kept s r = Keeps s r.1

go_on-Keeps :
    {E A B : Type 0} (s : State) (r : Result E A × State) (k : A → State → Result E B × State)
    → Keeps s r.1
    → ((a : A) (t : State) → Keeps t (k a t).1)
    → Keeps s (go_on r k).1
go_on-Keeps s (ok a, t) k h f = Keeps-trans s t _ h (f a t)
go_on-Keeps s (err e, t) k h f = h

wrap_result-Keeps :
    {E F A : Type 0} (f : E → F) (s : State) (r : Result E A × State)
    → Keeps s r.1
    → Keeps s (wrap_result f r).1
wrap_result-Keeps f s (ok a, t) h = h
wrap_result-Keeps f s (err e, t) h = h

-- A sequence keeps what all its steps keep.
pub data AllKeep : List Step → Type 0 where
  end : AllKeep []
  also :
      {step : Step} {steps : List Step} → KeepsAll step.act → AllKeep steps → AllKeep (step ∷ steps)

run_steps-Keeps : {steps : List Step} (dry : Bool) → AllKeep steps → KeepsAll (run_steps dry steps)
unfolding run_steps
run_steps-Keeps dry end s = Keeps-refl s
run_steps-Keeps true (also h all) s = run_steps-Keeps true all s
run_steps-Keeps false (also {step} {steps} h all) s =
    go_on-Keeps s (wrap_result (step_failed step.name) (step.act s)) (λ _. run_steps false steps)
      (wrap_result-Keeps (step_failed step.name) s (step.act s) (h s))
      (λ _. run_steps-Keeps false all)

module _ (w : World) (c : Controller) where
  verify_primary_down-Keeps : KeepsAll (verify_primary_down w c)
  unfolding verify_primary_down
  verify_primary_down-Keeps s = if_both (Kept s) c.force (Keeps-refl s) (
      if_both (Kept s) s.primary_down (Keeps-refl s) (
        if_both (Kept s) (reaches w (count_failures w c.health_urls s.log).0 c.quorum)
          (record { same_count = refl; still_down = λ _. refl })
          (Keeps-log s (count_failures w c.health_urls s.log).1)))

  judge-Keeps :
      (s : State) (r : Result CheckError (Unit {0}) × State) → Keeps s r.1 → Keeps s (judge w c r).1
  unfolding judge
  judge-Keeps s (ok _, t) h = h
  judge-Keeps s (err (primary_key _), t) h = h
  judge-Keeps s (err (secondary_key _), t) h = h
  judge-Keeps s (err key_mismatch, t) h = h

  verify_db_key_parity-Keeps : (site : SiteConfig) → KeepsAll (verify_db_key_parity w c site)
  unfolding verify_db_key_parity
  verify_db_key_parity-Keeps site s =
      if_both (Kept s) (is_empty c.cfg.primary.ssh_host || is_empty site.ssh_host) (Keeps-refl s)
        (judge-Keeps s _ (Keeps-log s _))

  ssh_checked-Keeps :
      (checked : Result HostError (Unit {0})) (host cmd : Text)
      → KeepsAll (ssh_checked w c checked host cmd)
  unfolding ssh_checked
  ssh_checked-Keeps (err e) host cmd s = Keeps-refl s
  ssh_checked-Keeps (ok _) host cmd s =
      go_on-Keeps s (lift (wrap (ssh_failed host) (combined_output w c.ssh_cfg host cmd)) s)
        (λ _ t. (ok tt, t)) (Keeps-log s _) (λ _. Keeps-refl)

  ssh_secondary-Keeps : (host cmd : Text) → KeepsAll (ssh_secondary w c host cmd)
  unfolding ssh_secondary
  ssh_secondary-Keeps host cmd = ssh_checked-Keeps (check_host host) host cmd

  disable_read_only-Keeps : (host : Text) → KeepsAll (disable_read_only w c host)
  unfolding disable_read_only
  disable_read_only-Keeps host s = Keeps-log s _

  promotion_steps-AllKeep : (site : SiteConfig) → AllKeep (promotion_steps w c site)
  unfolding promotion_steps
  promotion_steps-AllKeep site = also verify_primary_down-Keeps (
      also (verify_db_key_parity-Keeps site) (
        also (ssh_secondary-Keeps site.ssh_host stop_command) (
          also (ssh_secondary-Keeps site.ssh_host promote_command) (
            also (disable_read_only-Keeps site.ssh_host)
              (also (ssh_secondary-Keeps site.ssh_host start_command) end)))))

  promote_found-Keeps : (r : Result FailoverError SiteConfig) → KeepsAll (promote_found w c r)
  unfolding promote_found promote_site
  promote_found-Keeps (err e) s = Keeps-refl s
  promote_found-Keeps (ok site) s =
      if_both (Kept s) (not c.dry_run && not c.cfg.sync.failover_enabled) (Keeps-refl s)
        (run_steps-Keeps c.dry_run (promotion_steps-AllKeep site) s)

  pub promote-Keeps : (name : Text) → KeepsAll (promote w c name)
  unfolding promote
  promote-Keeps name = promote_found-Keeps (find_secondary c.cfg name)
