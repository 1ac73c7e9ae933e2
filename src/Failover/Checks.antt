-- ===== src/Failover/Checks.antt =====
-- failover.go, `verifyPrimaryDown` and `verifyDBKeyParity`: the requests they send.
use mathlib.Core.List.{append-nil, append_assoc}
use syncctl.Base.{
  Bool, true, false, ◌||◌, Option, none, some, List, [], ◌∷◌, ◌++◌, All, All-append, ◌≡◌, refl, sym,
  ◌∙◌, ap, ◌⊎◌, inl, inr, arith, Text, is_empty, text_eq, if_both, Bool-cases,
}
use syncctl.Base.Result.{Result, ok, err}
use syncctl.Config.Types.{SiteConfig}
use syncctl.Dbkey.{
  KeyError, CheckError, key_ssh, primary_key, secondary_key, key_mismatch, fetch_command, find_key,
  fetch_key, check_keys, try_fetch_key, fetch_plain, retry_plain, fetch_text, key_of, fetch_checked,
  compare_keys,
}
use syncctl.Effects.{
  Event, poll, remote, World, Log, Action, SshError, go_on, wrap, wrap_result, combined_output,
  run_with,
}
use syncctl.Failover.Health.{count_failures, reaches, verify_primary_down}
use syncctl.Failover.Steps.{judge, verify_db_key_parity}
use syncctl.Failover.{Controller, State, FailoverError}
use syncctl.Ssh.Command.{SshConfig, command}
use syncctl.Ssh.{HostError, check_host}

-- A poll of a URL, or the command that prints the line of `db_key_base`.
pub data IsCheck : Event → Type 0 where
  polled : (url : Text) → IsCheck (poll url)
  key_read : (host : Text) (with_sudo : Bool) → IsCheck (remote host (fetch_command with_sudo) none)

-- Only checks were added to the log.
pub record Checked (l l' : Log) : Type 0 where
  pub checks : List Event
  pub are_checks : All IsCheck checks
  pub log_is : l' ≡ l ++ checks

abbrev StateChecked : Log → Result FailoverError (Unit {0}) × State → Type 0
StateChecked l r = Checked l r.1.log

pub Checked-none : (l : Log) → Checked l l
Checked-none l = record { checks = []; are_checks = tt; log_is = sym (append-nil l) }

Checked-one : (l : Log) (e : Event) → IsCheck e → Checked l (l ++ e ∷ [])
Checked-one l e h = record { checks = e ∷ []; are_checks = (h, tt); log_is = refl }

pub Checked-trans : (l l' l'' : Log) → Checked l l' → Checked l' l'' → Checked l l''
Checked-trans l l' l'' a b = record {
  checks = a.checks ++ b.checks;
  are_checks = All-append IsCheck a.checks b.checks a.are_checks b.are_checks;
  log_is = b.log_is ∙ ap (λ x. x ++ b.checks) a.log_is ∙ append_assoc l a.checks b.checks;
}

go_on-Checked :
    {E A B : Type 0} (l : Log) (r : Result E A × Log) (k : A → Log → Result E B × Log)
    → Checked l r.1
    → ((a : A) (l' : Log) → Checked l' (k a l').1)
    → Checked l (go_on r k).1
go_on-Checked l (ok a, l') k h f = Checked-trans l l' _ h (f a l')
go_on-Checked l (err e, l') k h f = h

wrap_result-Checked :
    {E F A : Type 0} (f : E → F) (l : Log) (r : Result E A × Log)
    → Checked l r.1
    → Checked l (wrap_result f r).1
wrap_result-Checked f l (ok a, l') h = h
wrap_result-Checked f l (err e, l') h = h

module _ (w : World) where
  pub count_failures-Checked : (urls : List Text) (l : Log) → Checked l (count_failures w urls l).1
  unfolding count_failures
  count_failures-Checked [] l = Checked-none l
  count_failures-Checked (url ∷ urls) l =
      Checked-trans l _ _ (Checked-one l (poll url) (polled url))
        (count_failures-Checked urls (l ++ poll url ∷ []))

  -- The primary counts as down: by force, by the state, or by as many failures as the quorum.
  abbrev pub Gate : Controller → State → Type 0
  Gate c s =
      (c.force ≡ true)
      ⊎ (s.primary_down ≡ true)
      ⊎ (reaches w (count_failures w c.health_urls s.log).0 c.quorum ≡ true)

  pub verify_primary_down-Checked :
      (c : Controller) (s : State) → Checked s.log (verify_primary_down w c s).1.log
  unfolding verify_primary_down
  verify_primary_down-Checked c s =
      let probed = count_failures-Checked c.health_urls s.log in
      if_both (StateChecked s.log) c.force (Checked-none s.log) (
        if_both (StateChecked s.log) s.primary_down (Checked-none s.log) (
          if_both (StateChecked s.log) (reaches w (count_failures w c.health_urls s.log).0 c.quorum)
            probed probed))

  pub verify_primary_down-Gate :
      (c : Controller) (s : State) → (verify_primary_down w c s).0 ≡ ok tt → Gate c s
  unfolding verify_primary_down
  verify_primary_down-Gate c s h = elim (Bool-cases c.force) [
    | inl forced ↦ inl forced
    | inr free ↦ elim (Bool-cases s.primary_down) [
      | inl down ↦ inr (inl down)
      | inr up ↦ inr (inr (ground arith))
    ]
  ]

  module _ (cfg : SshConfig) where
    run_with-Checked :
        (argv : Result HostError (List Text)) (host : Text) (b : Bool) (l : Log)
        → Checked l (run_with w cfg argv host (fetch_command b) none l).1
    unfolding run_with
    run_with-Checked (ok argv) host b l = Checked-one l _ (key_read host b)
    run_with-Checked (err e) host b l = Checked-none l

    try_fetch_key-Checked :
        (host : Text) (b : Bool) (l : Log)
        → Checked l (try_fetch_key w (combined_output w cfg) host b l).1
    unfolding try_fetch_key combined_output
    try_fetch_key-Checked host b l = run_with-Checked (command cfg host (fetch_command b)) host b l

    fetch_plain-Checked :
        (host : Text) (l : Log) → Checked l (fetch_plain w (combined_output w cfg) host l).1
    unfolding fetch_plain
    fetch_plain-Checked host l =
        if_both (λ (r : Result KeyError Text × Log). Checked l r.1) (w.cancelled l) (Checked-none l)
          (wrap_result-Checked (key_ssh host) l _ (try_fetch_key-Checked host false l))

    retry_plain-Checked :
        (host : Text) (l : Log) (r : Result SshError Text × Log)
        → Checked l r.1
        → Checked l (retry_plain w (combined_output w cfg) host r).1
    unfolding retry_plain
    retry_plain-Checked host l (ok text, l') h = h
    retry_plain-Checked host l (err e, l') h = Checked-trans l l' _ h (fetch_plain-Checked host l')

    fetch_text-Checked :
        (host : Text) (l : Log) → Checked l (fetch_text w (combined_output w cfg) host l).1
    unfolding fetch_text
    fetch_text-Checked host l = retry_plain-Checked host l _ (try_fetch_key-Checked host true l)

    key_of-Checked :
        (host : Text) (key : Option Text) (l : Log)
        → Checked l (key_of w (combined_output w cfg) host key l).1
    unfolding key_of
    key_of-Checked host none l = Checked-none l
    key_of-Checked host (some key) l = Checked-none l

    fetch_checked-Checked :
        (host : Text) (r : Result HostError (Unit {0})) (l : Log)
        → Checked l (fetch_checked w (combined_output w cfg) host r l).1
    unfolding fetch_checked
    fetch_checked-Checked host (err e) l = Checked-none l
    fetch_checked-Checked host (ok _) l =
        go_on-Checked l (fetch_text w (combined_output w cfg) host l)
          (λ text. key_of w (combined_output w cfg) host (find_key text))
          (fetch_text-Checked host l) (λ text. key_of-Checked host (find_key text))

    fetch_key-Checked :
        (host : Text) (l : Log) → Checked l (fetch_key w (combined_output w cfg) host l).1
    unfolding fetch_key
    fetch_key-Checked host l = fetch_checked-Checked host (check_host host) l

    compare_keys-Checked :
        (p s : Text) (l : Log) → Checked l (compare_keys w (combined_output w cfg) p s l).1
    unfolding compare_keys
    compare_keys-Checked p s l =
        if_both (λ (m : Action Log CheckError (Unit {0})). Checked l (m l).1) (text_eq p s)
          (Checked-none l) (Checked-none l)

    check_keys-Checked :
        (primary secondary : Text) (l : Log)
        → Checked l (check_keys w (combined_output w cfg) primary secondary l).1
    unfolding check_keys
    check_keys-Checked primary secondary l =
        let run = combined_output w cfg in
        let p = wrap primary_key (fetch_key w run primary) in
        let s = wrap secondary_key (fetch_key w run secondary) in
        go_on-Checked l (p l) (λ a. λ l'. go_on (s l') (compare_keys w run a))
          (wrap_result-Checked primary_key l _ (fetch_key-Checked primary l))
          (λ a l'.
            go_on-Checked l' (s l') (compare_keys w run a)
              (wrap_result-Checked secondary_key l' _ (fetch_key-Checked secondary l'))
              (compare_keys-Checked a))

  judge-Checked :
      (c : Controller) (l : Log) (r : Result CheckError (Unit {0}) × State)
      → Checked l r.1.log
      → Checked l (judge w c r).1.log
  unfolding judge
  judge-Checked c l (ok _, s) h = h
  judge-Checked c l (err (primary_key e), s) h = h
  judge-Checked c l (err (secondary_key e), s) h = h
  judge-Checked c l (err key_mismatch, s) h = h

  pub verify_db_key_parity-Checked :
      (c : Controller) (site : SiteConfig) (s : State)
      → Checked s.log (verify_db_key_parity w c site s).1.log
  unfolding verify_db_key_parity
  verify_db_key_parity-Checked c site s =
      if_both (StateChecked s.log) (is_empty c.cfg.primary.ssh_host || is_empty site.ssh_host)
        (Checked-none s.log)
        (judge-Checked c s.log _
          (check_keys-Checked c.ssh_cfg c.cfg.primary.ssh_host site.ssh_host s.log))
