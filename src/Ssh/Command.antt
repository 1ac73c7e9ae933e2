-- ===== src/Ssh/Command.antt =====
-- internal/sshexec/sshexec.go: `Config`, the arguments of `ssh`, and `SSHString`. The command that is
-- run is the list of its arguments; running it is the caller's `Runner`.
use syncctl.Base.{not, List, [], ◌∷◌, ◌++◌, if◌then◌else◌, Text, codes, is_empty}
use syncctl.Base.Result.{Result, ok, ◌>>=◌}
use syncctl.Base.Strings.{join}
use syncctl.Ssh.{Endpoint, HostError, parse_endpoint, destination}

pub record SshConfig : Type 0 where
  pub known_hosts_file : Text
  pub strict_host_key_checking : Text

-- `EffectiveStrictHostKeyChecking`
unfoldable pub effective_checking : SshConfig → Text
effective_checking c =
    if not (is_empty c.strict_host_key_checking)
    then c.strict_host_key_checking
    else if not (is_empty c.known_hosts_file)
    then codes "yes"
    else codes "accept-new"

abbrev pub checking_option : SshConfig → Text
checking_option c = codes "StrictHostKeyChecking=" ++ effective_checking c

abbrev pub known_hosts_option : SshConfig → Text
known_hosts_option c = codes "UserKnownHostsFile=" ++ c.known_hosts_file

-- `ExtraArgs`
extra_args : SshConfig → List Text
unfolding effective_checking
extra_args c =
    (codes "-o" ∷ checking_option c ∷ [])
    ++ (if not (is_empty c.known_hosts_file) then codes "-o" ∷ known_hosts_option c ∷ [] else [])

-- `argsFor`
unfoldable pub args_for : SshConfig → Endpoint → List Text
unfolding extra_args
args_for c e = extra_args c ++ (if not (is_empty e.port) then codes "-p" ∷ e.port ∷ [] else [])

-- `Command`: what follows the program's name in the argument vector.
unfoldable pub command : SshConfig → Text → Text → Result HostError (List Text)
unfolding args_for destination parse_endpoint
command c host remote = do
  e ← parse_endpoint host
  ok (args_for c e ++ (destination e ∷ remote ∷ []))

-- `SSHString`
unfoldable pub ssh_string : SshConfig → Text → Result HostError Text
unfolding args_for parse_endpoint join
ssh_string c host = do e ← parse_endpoint host; ok (codes "ssh " ++ join (args_for c e) (codes " "))
