-- ===== src/Failover/Safety.antt =====
-- failover.go, `Promote`: the requests it sends on every outcome.
use mathlib.Core.List.{append-nil, append_assoc}
use syncctl.Base.{
  Bool, true, false, not, ◌&&◌, none, List, [], ◌∷◌, ◌++◌, map, All, ◌≡◌, refl, sym, ◌∙◌, ap, ◌⊎◌,
  inl, inr, Text, codes, if_both,
}
use mathlib.Core.Path.{subst}
use syncctl.Base.Result.{Result, ok, err, succeeds}
use syncctl.Config.Types.{SiteConfig}
use syncctl.Effects.{Event, remote, World, Log, go_on, wrap_result}
use syncctl.Failover.Checks.{
  IsCheck, Checked, Checked-none, Checked-trans, Gate, verify_primary_down-Checked,
  verify_primary_down-Gate, verify_db_key_parity-Checked,
}
use syncctl.Failover.Health.{verify_primary_down}
use syncctl.Failover.Ran.{Ran, Plan, done, next, run_steps_wet, run_steps-Acts}
use syncctl.Failover.Performs.{ssh_secondary-Acts, disable_read_only-Acts}
use syncctl.Failover.Promotion.{change_steps, promotion_steps, promote_found, promote_site, promote}
use syncctl.Failover.Steps.{
  run_steps, stop_command, promote_command, start_command, verify_db_key_parity,
}
use syncctl.Failover.Targets.{find_secondary}
use syncctl.Failover.{Controller, State, FailoverError, failover_disabled, step_failed}
use syncctl.Readonly.{disable_commands}

-- The commands of a promotion on the secondary's host, in the order of the sequence.
pub promotion_events : Text → List Event
promotion_events host =
    remote host stop_command none
    ∷ remote host promote_command none
    ∷ (map (λ cmd. remote host cmd none) disable_commands ++ remote host start_command none ∷ [])

module _ (w : World) (c : Controller) where
  -- Checks, and behind them the first commands of the promotion: all of them if it succeeds, and
  -- none of them unless the primary counts as down.
  pub record Promoted (host : Text) (s : State) (out : Result FailoverError (Unit {0}) × State)
      : Type 0 where
    pub checks : List Event
    pub are_checks : All IsCheck checks
    pub ran : List Event
    pub left : List Event
    pub log_is : out.1.log ≡ s.log ++ (checks ++ ran)
    pub splits : promotion_events host ≡ ran ++ left
    pub finished : succeeds out.0 ≡ true → left ≡ []
    gated : (ran ≡ []) ⊎ Gate w c s

  Promoted-refused :
      (host : Text) (s s' : State) (e : FailoverError)
      → Checked s.log s'.log
      → Promoted host s (err e, s')
  Promoted-refused host s s' e h = record {
    checks = h.checks;
    are_checks = h.are_checks;
    ran = [];
    left = promotion_events host;
    log_is = h.log_is ∙ ap (λ x. s.log ++ x) (sym (append-nil h.checks));
    splits = refl;
    finished = λ k. cc;
    gated = inl refl;
  }

  Promoted-run :
      (host : Text) (s : State) (l : Log) (out : Result FailoverError (Unit {0}) × State)
      → Checked s.log l
      → Gate w c s
      → Ran l (promotion_events host) (succeeds out.0) out.1.log
      → Promoted host s out
  Promoted-run host s l out h g r = record {
    checks = h.checks;
    are_checks = h.are_checks;
    ran = r.ran;
    left = r.left;
    log_is = r.log_is ∙ ap (λ x. x ++ r.ran) h.log_is ∙ append_assoc s.log h.checks r.ran;
    splits = r.splits;
    finished = r.finished;
    gated = inr g;
  }

  -- A check as the next step.
  go_on-Promoted :
      (host : Text) (s : State) (name : Text) (r : Result FailoverError (Unit {0}) × State)
      (k : State → Result FailoverError (Unit {0}) × State)
      → Checked s.log r.1.log
      → ((s' : State) → r.0 ≡ ok tt → Checked s.log s'.log → Promoted host s (k s'))
      → Promoted host s (go_on (wrap_result (step_failed name) r) (λ _. k))
  go_on-Promoted host s name (ok _, s') k h f = f s' refl h
  go_on-Promoted host s name (err e, s') k h f = Promoted-refused host s s' (step_failed name e) h

  change_steps-Plan :
      (site : SiteConfig)
      → c.dry_run ≡ false
      → Plan (change_steps w c site) (promotion_events site.ssh_host)
  unfolding change_steps promotion_events
  change_steps-Plan site wet = next (ssh_secondary-Acts w c site.ssh_host stop_command) (
      next (ssh_secondary-Acts w c site.ssh_host promote_command) (
        next (disable_read_only-Acts w c site.ssh_host wet)
          (next (ssh_secondary-Acts w c site.ssh_host start_command) done)))

  parity-Promoted :
      (site : SiteConfig) (s s' : State)
      → c.dry_run ≡ false
      → Gate w c s
      → Checked s.log s'.log
      → Promoted site.ssh_host s (
          run_steps false
            (record {
              name = codes "verify db_key_base parity";
              act = verify_db_key_parity w c site;
            }
              ∷ change_steps w c site)
            s')
  parity-Promoted site s s' wet g h = rw run_steps_wet (
      go_on-Promoted site.ssh_host s _ (verify_db_key_parity w c site s') _
        (Checked-trans s.log s'.log _ h (verify_db_key_parity-Checked w c site s'))
        (λ s'' _ h'.
          Promoted-run site.ssh_host s s''.log _ h' g
            (run_steps-Acts (change_steps-Plan site wet) s'')))

  promotion_steps-Promoted :
      (site : SiteConfig) (s : State)
      → c.dry_run ≡ false
      → Promoted site.ssh_host s (run_steps false (promotion_steps w c site) s)
  unfolding promotion_steps
  promotion_steps-Promoted site s wet = rw run_steps_wet (
      go_on-Promoted site.ssh_host s _ (verify_primary_down w c s) _
        (verify_primary_down-Checked w c s)
        (λ s' passed h. parity-Promoted site s s' wet (verify_primary_down-Gate w c s passed) h))

  promote_site-Promoted :
      (site : SiteConfig) (s : State)
      → c.dry_run ≡ false
      → Promoted site.ssh_host s (promote_site w c site s)
  unfolding promote_site
  promote_site-Promoted site s wet =
      if_both (Promoted site.ssh_host s) (not c.dry_run && not c.cfg.sync.failover_enabled)
        (Promoted-refused site.ssh_host s s failover_disabled (Checked-none s.log))
        (subst
          (λ (dry : Bool). Promoted site.ssh_host s (run_steps dry (promotion_steps w c site) s))
          (sym wet) (promotion_steps-Promoted site s wet))

  -- A promotion that is no dry run adds checks to the log and behind them the first commands of
  -- the sequence (stop, `pg_ctl promote`, read-only mode off, start) on the secondary's host, in
  -- this order and all of them if it succeeds. It runs none of them unless the operator forces it,
  -- the primary is known to be down, or as many health checks fail as the quorum asks.
  pub promote-Promoted :
      (name : Text) (s : State) {site : SiteConfig}
      → find_secondary c.cfg name ≡ ok site
      → c.dry_run ≡ false
      → Promoted site.ssh_host s (promote w c name s)
  unfolding promote promote_found
  promote-Promoted name s {site} found wet =
      rw (found, promote_found) (promote_site-Promoted site s wet)
