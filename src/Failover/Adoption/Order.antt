-- ===== src/Failover/Adoption/Order.antt =====
-- failover.go, `AdoptAsSecondary`: the order of its requests.
use mathlib.Core.List.{append_assoc}
use mathlib.Core.Path.{subst}
use syncctl.Base.{
  Bool, true, false, not, ◌&&◌, none, some, List, [], ◌∷◌, ◌++◌, map, ◌≡◌, refl, sym, ◌∙◌, ap,
  arith, Text, is_empty, if◌then◌else◌, if_both, Bool-cases, inl, inr,
}
use syncctl.Base.Result.{Result, ok, err, succeeds}
use syncctl.Base.Strings.{trim_space}
use syncctl.Config.Types.{PostgresConfig, SiteConfig}
use syncctl.Effects.{
  Event, remote, World, go_on, wrap, combined_output, combined_output_stdin, run_with,
}
use syncctl.Failover.Adoption.{
  wipe_command, list_command, stage_command, remove_command, backup_command, passfile_line,
  refuse_content, check_pg_data, write_passfile, remove_passfile, adoption_steps, then_remove,
  adopt_found, adopt_as_secondary,
}
use syncctl.Failover.Ran.{
  Ran, Ran-none, go_on-Ran, wrap_result-Ran, Plan, done, next, Acts, run_steps-Acts,
}
use syncctl.Failover.Performs.{
  ssh_secondary-Acts, enable_read_only-Acts, combined_output-Performs,
  combined_output_stdin-Performs,
}
use syncctl.Failover.Steps.{run_steps, stop_command, start_command}
use syncctl.Failover.Targets.{resolve_new_primary}
use syncctl.Failover.{
  Controller, State, FailoverError, failover_disabled, ssh_failed, passfile_failed, lift,
}
use syncctl.Readonly.{enable_commands}
use syncctl.Ssh.{Endpoint, parse_endpoint}
use syncctl.Ssh.Command.{command}

-- The requests of an adoption, in the order of the sequence.
pub adoption_events : Bool → Text → PostgresConfig → List Event
adoption_events wipe host pg =
    remote host stop_command none
    ∷ remote host (if wipe then wipe_command else list_command) none
    ∷ ((if is_empty pg.replication_password
          then []
          else remote host stage_command (some (passfile_line pg)) ∷ [])
        ++ (remote host (backup_command pg) none
            ∷ (map (λ cmd. remote host cmd none) enable_commands
                ++ remote host start_command none ∷ [])))

module _ (w : World) (c : Controller) where
  abbrev Sent : State → List Event → Result FailoverError (Unit {0}) × State → Type 0
  Sent s es r = Ran s.log es (succeeds r.0) r.1.log

  refuse_content-Acts : (host out : Text) → Acts (refuse_content w c host out) []
  unfolding refuse_content
  refuse_content-Acts host out s =
      if_both (Sent s []) (not (is_empty (trim_space out))) (Ran-none s.log false)
        (Ran-none s.log true)

  listed-Acts :
      (host : Text)
      → Acts
          (λ s.
            go_on
              (lift (wrap (ssh_failed host) (combined_output w c.ssh_cfg host list_command)) s)
              (refuse_content w c host))
          (remote host list_command none ∷ [])
  listed-Acts host s =
      go_on-Ran (λ t. t.log) s.log (remote host list_command none ∷ []) [] _
        (refuse_content w c host)
        (wrap_result-Ran (λ x. x) (ssh_failed host)
          (combined_output w c.ssh_cfg host list_command s.log) s.log _
          (combined_output-Performs w c.ssh_cfg host list_command s.log))
        (refuse_content-Acts host)

  pub check_pg_data-Acts :
      (host : Text)
      → Acts
          (check_pg_data w c host)
          (remote host (if c.wipe_pg_data then wipe_command else list_command) none ∷ [])
  unfolding check_pg_data
  check_pg_data-Acts host s = elim (Bool-cases c.wipe_pg_data) [
    | inl wipe ↦ simp wipe (ssh_secondary-Acts w c host wipe_command s)
    | inr keep ↦ simp keep (listed-Acts host s)
  ]

  written-Acts :
      (host : Text) (pg : PostgresConfig)
      → Acts
          (λ s.
            go_on
              (lift
                (wrap
                  (passfile_failed host)
                  (combined_output_stdin w c.ssh_cfg host stage_command (passfile_line pg)))
                s)
              (λ _ t. (ok tt, t)))
          (remote host stage_command (some (passfile_line pg)) ∷ [])
  written-Acts host pg s =
      let run = combined_output_stdin w c.ssh_cfg host stage_command (passfile_line pg) in
      go_on-Ran (λ t. t.log) s.log (remote host stage_command (some (passfile_line pg)) ∷ []) []
        (lift (wrap (passfile_failed host) run) s) (λ _ t. (ok tt, t))
        (wrap_result-Ran (λ x. x) (passfile_failed host) (run s.log) s.log _
          (combined_output_stdin-Performs w c.ssh_cfg host stage_command (passfile_line pg) s.log))
        (λ _ t. Ran-none t.log true)

  write_passfile-Acts :
      (host : Text) (pg : PostgresConfig)
      → Acts (write_passfile w c host pg) (
          if is_empty pg.replication_password
          then []
          else remote host stage_command (some (passfile_line pg)) ∷ [])
  unfolding write_passfile
  write_passfile-Acts host pg s = elim (Bool-cases (is_empty pg.replication_password)) [
    | inl absent ↦ simp absent (Ran-none s.log true)
    | inr set ↦ simp set (written-Acts host pg s)
  ]

  adoption_steps-Plan :
      (host : Text) (site : SiteConfig)
      → c.dry_run ≡ false
      → Plan (adoption_steps w c host site) (adoption_events c.wipe_pg_data host site.postgres)
  unfolding adoption_steps adoption_events
  adoption_steps-Plan host site wet = next (ssh_secondary-Acts w c host stop_command) (
      next (check_pg_data-Acts host) (
        next (write_passfile-Acts host site.postgres) (
          next (ssh_secondary-Acts w c host (backup_command site.postgres)) (
            next (enable_read_only-Acts w c host wet)
              (next (ssh_secondary-Acts w c host start_command) done)))))

  -- The first requests of the adoption, all of them if it succeeds, and behind them the removal of
  -- the passfile.
  pub record Adopted (host : Text) (pg : PostgresConfig) (s : State)
      (out : Result FailoverError (Unit {0}) × State) : Type 0 where
    pub ran : List Event
    pub left : List Event
    pub log_is : out.1.log ≡ s.log ++ (ran ++ remote host remove_command none ∷ [])
    pub splits : adoption_events c.wipe_pg_data host pg ≡ ran ++ left
    pub finished : succeeds out.0 ≡ true → left ≡ []

  pub remove_passfile-log :
      (host : Text) {e : Endpoint}
      → parse_endpoint host ≡ ok e
      → c.dry_run ≡ false
      → (s : State)
      → (remove_passfile w c host s).log ≡ s.log ++ remote host remove_command none ∷ []
  unfolding remove_passfile combined_output command run_with
  remove_passfile-log host parsed wet s = rw (wet, parsed) refl

  then_remove-Adopted :
      (host : Text) (pg : PostgresConfig) {e : Endpoint}
      → parse_endpoint host ≡ ok e
      → c.dry_run ≡ false
      → (s : State) (r : Result FailoverError (Unit {0}) × State)
      → Sent s (adoption_events c.wipe_pg_data host pg) r
      → Adopted host pg s (then_remove w c host r)
  unfolding then_remove
  then_remove-Adopted host pg parsed wet s (r, t) sent = record {
    ran = sent.ran;
    left = sent.left;
    log_is =
        remove_passfile-log host parsed wet t
        ∙ ap (λ x. x ++ remote host remove_command none ∷ []) sent.log_is
        ∙ append_assoc s.log sent.ran (remote host remove_command none ∷ []);
    splits = sent.splits;
    finished = sent.finished;
  }

  pub if_false :
      {A : Type 0} (P : A → Type 0) (b : Bool) (x : A) {y : A}
      → b ≡ false
      → P y
      → P (if b then x else y)
  if_false P b x off h = rw off h

  adopt_found-Adopted :
      (host : Text) (s : State) {site : SiteConfig} {e : Endpoint}
      {r : Result FailoverError SiteConfig}
      → r ≡ ok site
      → parse_endpoint host ≡ ok e
      → c.dry_run ≡ false
      → Adopted host site.postgres s (adopt_found w c host r s)
  unfolding adopt_found
  adopt_found-Adopted host s {site} found parsed wet = rw found (
      then_remove-Adopted host site.postgres parsed wet s _ (
        subst
          (λ (dry : Bool).
            Sent s (adoption_events c.wipe_pg_data host site.postgres)
              (run_steps dry (adoption_steps w c host site) s))
          (sym wet) (run_steps-Acts (adoption_steps-Plan host site wet) s)))

  -- An adoption that is no dry run, with failover enabled, a new primary that is determined and a
  -- host that can be parsed, sends the first requests of the sequence (stop, the check of the data
  -- directory, the passfile if there is a password, `pg_basebackup`, read-only mode on, start) in
  -- this order and all of them if it succeeds, and then removes the passfile, however the
  -- steps end. Nothing else is sent.
  pub adopt_as_secondary-Adopted :
      (host name : Text) (s : State) {site : SiteConfig} {e : Endpoint}
      → resolve_new_primary c.cfg name ≡ ok site
      → parse_endpoint host ≡ ok e
      → c.dry_run ≡ false
      → c.cfg.sync.failover_enabled ≡ true
      → Adopted host site.postgres s (adopt_as_secondary w c host name s)
  unfolding adopt_as_secondary
  adopt_as_secondary-Adopted host name s {site} found parsed wet enabled =
      if_false (Adopted host site.postgres s) (not c.dry_run && not c.cfg.sync.failover_enabled)
        (err failover_disabled, s) (ground arith) (adopt_found-Adopted host s found parsed wet)
