-- ===== src/Effects.antt =====
-- What the program does to the outside: HTTP polls and commands over SSH. The outside is a `World`
-- that answers each request by any rule, which may depend on all that was asked before; the log
-- keeps the requests in their order.
use syncctl.Base.{Bool, Option, none, some, List, [], ◌∷◌, ◌++◌, Text, if◌then◌else◌}
use syncctl.Base.Result.{Result, ok, err}
use syncctl.Ssh.Command.{SshConfig, command}
use syncctl.Ssh.{HostError}

pub data Event : Type 0 where
  -- a GET of a URL
  poll : Text → Event
  -- the command that a host runs, with what is piped to its standard input
  remote : Text → Text → Option Text → Event

abbrev pub Log : Type 0
Log = List Event

pub record Reply : Type 0 where
  pub output : Text
  pub failed : Bool

pub record World : Type 0 where
  -- whether a URL answers 200
  pub healthy : Log → Text → Bool
  -- what a remote command prints, and whether `ssh` or the command fails
  pub reply : Log → Text → Text → Option Text → Reply
  -- whether the context is cancelled
  pub cancelled : Log → Bool

pub data SshError : Type 0 where
  bad_host : HostError → SshError
  failed_with : Text → SshError

-- An action on a state returns a value or an error, and the state behind it.
abbrev pub Action : Type 0 → Type 0 → Type 0 → Type 0
Action S E A = S → Result E A × S

module _ {S E A B : Type 0} where
  abbrev pub go_on : Result E A × S → (A → Action S E B) → Result E B × S
  go_on (ok a, s) f = f a s
  go_on (err e, s) f = (err e, s)

  infixl 5 ◌>>=◌ ◌>>◌
  abbrev pub ◌>>=◌ : Action S E A → (A → Action S E B) → Action S E B
  ◌>>=◌ m f s = go_on (m s) f

  abbrev pub ◌>>◌ : Action S E A → Action S E B → Action S E B
  ◌>>◌ m k s = go_on (m s) (λ _. k)

abbrev pub return : {S E A : Type 0} → A → Action S E A
return a s = (ok a, s)

abbrev pub fail : {S E A : Type 0} → E → Action S E A
fail e s = (err e, s)

-- Wraps the error of an action.
abbrev pub wrap_result : {S E F A : Type 0} → (E → F) → Result E A × S → Result F A × S
wrap_result f (ok a, s) = (ok a, s)
wrap_result f (err e, s) = (err (f e), s)

abbrev pub wrap : {S E F A : Type 0} → (E → F) → Action S E A → Action S F A
wrap f m s = wrap_result f (m s)

-- The minimal interface of sshexec.go: runs a command on a host.
abbrev pub Runner : Type 0
Runner = Text → Text → Action Log SshError Text

module _ (w : World) (c : SshConfig) where
  reply_with : Text → Text → Option Text → Log → Reply → Result SshError Text × Log
  reply_with host cmd stdin l r = (
    if r.failed then err (failed_with r.output) else ok r.output,
    l ++ remote host cmd stdin ∷ [],
  )

  -- A host that cannot be parsed is an error before anything is run.
  unfoldable pub run_with :
      Result HostError (List Text) → Text → Text → Option Text → Action Log SshError Text
  unfolding reply_with
  run_with (err e) host cmd stdin l = (err (bad_host e), l)
  run_with (ok argv) host cmd stdin l = reply_with host cmd stdin l (w.reply l host cmd stdin)

  run_remote : Text → Text → Option Text → Action Log SshError Text
  unfolding run_with command
  run_remote host cmd = run_with (command c host cmd) host cmd

  -- `Config.CombinedOutput` and `Config.CombinedOutputStdin`
  unfoldable pub combined_output : Runner
  unfolding run_remote
  combined_output host cmd = run_remote host cmd none

  unfoldable pub combined_output_stdin : Text → Text → Text → Action Log SshError Text
  unfolding run_remote
  combined_output_stdin host cmd stdin = run_remote host cmd (some stdin)
