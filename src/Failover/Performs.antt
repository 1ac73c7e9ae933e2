-- ===== src/Failover/Performs.antt =====
-- The requests that the steps of the controller send.
use syncctl.Base.{true, false, Option, none, some, List, [], ◌∷◌, map, ◌≡◌, Text}
use syncctl.Base.Result.{Result, ok, err}
use syncctl.Effects.{
  remote, World, wrap, wrap_result, combined_output, combined_output_stdin, run_with,
}
use syncctl.Failover.Steps.{ssh_checked, ssh_secondary, disable_read_only, enable_read_only}
use syncctl.Failover.{Controller, ssh_failed, read_only_failed, lift}
use syncctl.Readonly.{
  ssh_error, run_checked, run_ssh, run_all, enable, disable, enable_commands, disable_commands,
}
use syncctl.Ssh.Command.{SshConfig, command}
use syncctl.Ssh.{HostError, check_host}
use syncctl.Failover.Ran.{
  Performs, Acts, Ran-none, Ran-refused, Ran-sent, go_on-Ran, wrap_result-Ran,
}

module _ (w : World) (c : SshConfig) where
  run_with-Performs :
      (argv : Result HostError (List Text)) (host cmd : Text) (stdin : Option Text)
      → Performs (run_with w c argv host cmd stdin) (remote host cmd stdin ∷ [])
  unfolding run_with
  run_with-Performs (ok argv) host cmd stdin l = Ran-sent l (remote host cmd stdin) _
  run_with-Performs (err e) host cmd stdin l = Ran-refused l _

  pub combined_output-Performs :
      (host cmd : Text) → Performs (combined_output w c host cmd) (remote host cmd none ∷ [])
  unfolding combined_output
  combined_output-Performs host cmd = run_with-Performs (command c host cmd) host cmd none

  pub combined_output_stdin-Performs :
      (host cmd stdin : Text)
      → Performs (combined_output_stdin w c host cmd stdin) (remote host cmd (some stdin) ∷ [])
  unfolding combined_output_stdin
  combined_output_stdin-Performs host cmd stdin =
      run_with-Performs (command c host cmd) host cmd (some stdin)

  run_checked-Performs :
      (checked : Result HostError (Unit {0})) (host cmd : Text)
      → Performs
          (run_checked (combined_output w c) host false checked cmd)
          (remote host cmd none ∷ [])
  unfolding run_checked
  run_checked-Performs (err e) host cmd l = Ran-refused l _
  run_checked-Performs (ok _) host cmd l =
      go_on-Ran (λ x. x) l (remote host cmd none ∷ []) []
        (wrap_result (ssh_error host) (combined_output w c host cmd l)) (λ _ l'. (ok tt, l'))
        (wrap_result-Ran (λ x. x) (ssh_error host) (combined_output w c host cmd l) l _
          (combined_output-Performs host cmd l))
        (λ _ l'. Ran-none l' true)

  run_all-Performs :
      (host : Text) (cmds : List Text)
      → Performs
          (run_all (combined_output w c) host false cmds)
          (map (λ cmd. remote host cmd none) cmds)
  unfolding run_all
  run_all-Performs host [] l = Ran-none l true
  run_all-Performs host (cmd ∷ cmds) l =
      go_on-Ran (λ x. x) l (remote host cmd none ∷ []) (map (λ cmd. remote host cmd none) cmds)
        (run_ssh (combined_output w c) host false cmd l)
        (λ _. run_all (combined_output w c) host false cmds)
        (run_checked-Performs (check_host host) host cmd l) (λ _. run_all-Performs host cmds)

module _ (w : World) (c : Controller) where
  ssh_checked-Acts :
      (checked : Result HostError (Unit {0})) (host cmd : Text)
      → Acts (ssh_checked w c checked host cmd) (remote host cmd none ∷ [])
  unfolding ssh_checked
  ssh_checked-Acts (err e) host cmd s = Ran-refused s.log _
  ssh_checked-Acts (ok _) host cmd s =
      let m = wrap (ssh_failed host) (combined_output w c.ssh_cfg host cmd) in
      go_on-Ran (λ t. t.log) s.log (remote host cmd none ∷ []) [] (lift m s) (λ _ t. (ok tt, t))
        (wrap_result-Ran (λ x. x) (ssh_failed host) (combined_output w c.ssh_cfg host cmd s.log)
          s.log _ (combined_output-Performs w c.ssh_cfg host cmd s.log))
        (λ _ t. Ran-none t.log true)

  pub ssh_secondary-Acts :
      (host cmd : Text) → Acts (ssh_secondary w c host cmd) (remote host cmd none ∷ [])
  unfolding ssh_secondary
  ssh_secondary-Acts host cmd = ssh_checked-Acts (check_host host) host cmd

  -- The commands of read-only mode, in their order.
  pub disable_read_only-Acts :
      (host : Text)
      → c.dry_run ≡ false
      → Acts (disable_read_only w c host) (map (λ cmd. remote host cmd none) disable_commands)
  unfolding disable_read_only disable
  disable_read_only-Acts host wet s = rw wet (
      wrap_result-Ran (λ x. x) read_only_failed _ s.log _
        (run_all-Performs w c.ssh_cfg host disable_commands s.log))

  pub enable_read_only-Acts :
      (host : Text)
      → c.dry_run ≡ false
      → Acts (enable_read_only w c host) (map (λ cmd. remote host cmd none) enable_commands)
  unfolding enable_read_only enable
  enable_read_only-Acts host wet s = rw wet (
      wrap_result-Ran (λ x. x) read_only_failed _ s.log _
        (run_all-Performs w c.ssh_cfg host enable_commands s.log))
