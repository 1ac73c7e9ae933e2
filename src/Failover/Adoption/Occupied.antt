-- ===== src/Failover/Adoption/Occupied.antt =====
-- failover.go, `AdoptAsSecondary` on a data directory that is not empty.
use mathlib.Core.List.{append_assoc}
use mathlib.Core.Path.{subst}
use syncctl.Base.{
  Bool, true, false, not, ◌&&◌, none, List, [], ◌∷◌, ◌++◌, ◌≡◌, refl, sym, ◌∙◌, ap, arith, Text,
  is_empty, if◌then◌else◌,
}
use syncctl.Base.Result.{Result, ok, err, succeeds}
use syncctl.Base.Strings.{trim_space}
use syncctl.Config.Types.{SiteConfig}
use syncctl.Effects.{Event, remote, World, Log, go_on, wrap_result, combined_output, run_with}
use syncctl.Failover.Adoption.Order.{if_false, check_pg_data-Acts, remove_passfile-log}
use syncctl.Failover.Adoption.{
  wipe_command, list_command, remove_command, refuse_content, check_pg_data, adoption_steps,
  then_remove, adopt_found, adopt_as_secondary,
}
use syncctl.Failover.Ran.{Ran, Ran-append, Ran-stopped, Acts, run_steps_wet}
use syncctl.Failover.Performs.{ssh_secondary-Acts}
use syncctl.Failover.Steps.{run_steps, stop_command}
use syncctl.Failover.Targets.{resolve_new_primary}
use syncctl.Failover.{
  Controller, State, FailoverError, failover_disabled, step_failed, pg_data_not_empty,
}
use syncctl.Ssh.Command.{command}
use syncctl.Ssh.{Endpoint, parse_endpoint}

-- The directory of the host lists a name, whenever it is asked.
pub record Occupied (w : World) (host : Text) : Type 0 where
  pub answers : (l : Log) → (w.reply l host list_command none).failed ≡ false
  pub lists : (l : Log) → is_empty (trim_space (w.reply l host list_command none).output) ≡ false

module _ (w : World) (c : Controller) where
  refuse_content-occupied :
      (host out : Text) (s : State)
      → is_empty (trim_space out) ≡ false
      → (refuse_content w c host out s).0 ≡ err (pg_data_not_empty host)
  unfolding refuse_content
  refuse_content-occupied host out s h = rw h refl

  check_pg_data-Occupied :
      (host : Text) {e : Endpoint}
      → Occupied w host
      → parse_endpoint host ≡ ok e
      → c.wipe_pg_data ≡ false
      → (s : State) → (check_pg_data w c host s).0 ≡ err (pg_data_not_empty host)
  unfolding check_pg_data combined_output command run_with
  check_pg_data-Occupied host there parsed keep s =
      rw (keep, parsed, there.answers s.log)
        (refuse_content-occupied host (w.reply s.log host list_command none).output _
          (there.lists s.log))

  -- The requests of a sequence that fails.
  abbrev Stopped : Log → List Event → Result FailoverError (Unit {0}) × State → Type 0
  Stopped l es r = (succeeds r.0 ≡ false) × Ran l es false r.1.log

  go_on-Stopped :
      {e : FailoverError} (l : Log) (es : List Event) (name : Text)
      (r : Result FailoverError (Unit {0}) × State)
      (k : State → Result FailoverError (Unit {0}) × State)
      → r.0 ≡ err e
      → Ran l es (succeeds r.0) r.1.log
      → Stopped l es (go_on (wrap_result (step_failed name) r) (λ _. k))
  go_on-Stopped l es name (ok _, s) k h sent = cc
  go_on-Stopped l es name (err e, s) k h sent = (refl, sent)

  go_on-then-Stopped :
      (l : Log) (es fs : List Event) (name : Text) (r : Result FailoverError (Unit {0}) × State)
      (k : State → Result FailoverError (Unit {0}) × State)
      → Ran l es (succeeds r.0) r.1.log
      → ((s : State) → Stopped s.log fs (k s))
      → Stopped l (es ++ fs) (go_on (wrap_result (step_failed name) r) (λ _. k))
  go_on-then-Stopped l es fs name (ok _, s) k sent rest =
      ((rest s).0, Ran-append l s.log _ es fs false sent (rest s).1)
  go_on-then-Stopped l es fs name (err e, s) k sent rest = (refl, Ran-stopped l s.log es fs sent)

  pub occupied_events : Text → List Event
  occupied_events host = remote host stop_command none ∷ remote host list_command none ∷ []

  check_pg_data-lists :
      (host : Text)
      → c.wipe_pg_data ≡ false
      → Acts (check_pg_data w c host) (remote host list_command none ∷ [])
  check_pg_data-lists host keep s =
      subst
        (λ (wipe : Bool).
          Ran s.log (remote host (if wipe then wipe_command else list_command) none ∷ [])
            (succeeds (check_pg_data w c host s).0) (check_pg_data w c host s).1.log)
        keep (check_pg_data-Acts w c host s)

  adoption_steps-Stopped :
      (host : Text) (site : SiteConfig) {e : Endpoint}
      → Occupied w host
      → parse_endpoint host ≡ ok e
      → c.wipe_pg_data ≡ false
      → (s : State)
      → Stopped s.log (occupied_events host) (run_steps false (adoption_steps w c host site) s)
  unfolding adoption_steps occupied_events
  adoption_steps-Stopped host site there parsed keep s = rw run_steps_wet (
      go_on-then-Stopped s.log (remote host stop_command none ∷ [])
        (remote host list_command none ∷ []) _ _ _ (ssh_secondary-Acts w c host stop_command s)
        (λ t. rw run_steps_wet (
          go_on-Stopped t.log (remote host list_command none ∷ []) _ (check_pg_data w c host t) _
            (check_pg_data-Occupied host there parsed keep t) (check_pg_data-lists host keep t))))

  -- The adoption fails, and sends no more than the stop, the listing and the removal of the
  -- passfile.
  pub record LeftAlone (host : Text) (s : State) (out : Result FailoverError (Unit {0}) × State)
      : Type 0 where
    pub fails : succeeds out.0 ≡ false
    pub ran : List Event
    pub left : List Event
    pub log_is : out.1.log ≡ s.log ++ (ran ++ remote host remove_command none ∷ [])
    pub splits : occupied_events host ≡ ran ++ left

  then_remove-LeftAlone :
      (host : Text) {e : Endpoint}
      → parse_endpoint host ≡ ok e
      → c.dry_run ≡ false
      → (s : State) (r : Result FailoverError (Unit {0}) × State)
      → Stopped s.log (occupied_events host) r
      → LeftAlone host s (then_remove w c host r)
  unfolding then_remove
  then_remove-LeftAlone host parsed wet s (r, t) (fails, sent) = record {
    fails = fails;
    ran = sent.ran;
    left = sent.left;
    log_is =
        remove_passfile-log w c host parsed wet t
        ∙ ap (λ x. x ++ remote host remove_command none ∷ []) sent.log_is
        ∙ append_assoc s.log sent.ran (remote host remove_command none ∷ []);
    splits = sent.splits;
  }

  adopt_found-LeftAlone :
      (host : Text) (s : State) {site : SiteConfig} {e : Endpoint}
      {r : Result FailoverError SiteConfig}
      → r ≡ ok site
      → Occupied w host
      → parse_endpoint host ≡ ok e
      → c.dry_run ≡ false
      → c.wipe_pg_data ≡ false
      → LeftAlone host s (adopt_found w c host r s)
  unfolding adopt_found
  adopt_found-LeftAlone host s {site} found there parsed wet keep = rw found (
      then_remove-LeftAlone host parsed wet s _ (
        subst
          (λ (dry : Bool).
            Stopped s.log (occupied_events host) (run_steps dry (adoption_steps w c host site) s))
          (sym wet) (adoption_steps-Stopped host site there parsed keep s)))

  -- Where the data directory of the old primary lists a name and is not to be wiped, an adoption
  -- that is no dry run, with failover enabled, a new primary that is determined and a host that
  -- can be parsed, fails; of the sequence it sends at most the stop and the listing, so that neither
  -- the data nor the passfile is touched but by the final removal of the passfile.
  pub adopt_as_secondary-LeftAlone :
      (host name : Text) (s : State) {site : SiteConfig} {e : Endpoint}
      → resolve_new_primary c.cfg name ≡ ok site
      → Occupied w host
      → parse_endpoint host ≡ ok e
      → c.dry_run ≡ false
      → c.cfg.sync.failover_enabled ≡ true
      → c.wipe_pg_data ≡ false
      → LeftAlone host s (adopt_as_secondary w c host name s)
  unfolding adopt_as_secondary
  adopt_as_secondary-LeftAlone host name s found there parsed wet enabled keep =
      if_false w c (LeftAlone host s) (not c.dry_run && not c.cfg.sync.failover_enabled)
        (err failover_disabled, s) (ground arith)
        (adopt_found-LeftAlone host s found there parsed wet keep)
