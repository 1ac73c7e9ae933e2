-- ===== src/Ssh/Argv.antt =====
-- How `ssh` reads the arguments of `Command`.
use syncctl.Base.{
  false, ◌||◌, Option, none, some, List, [], ◌∷◌, ◌++◌, ◌≡◌, refl, arith, Text, codes, is_empty,
  text_eq, if◌then◌else◌,
}
use syncctl.Base.Result.{ok, >>=-eq-ok}
use syncctl.Base.Strings.{has_prefix}
use syncctl.Ssh.Command.{SshConfig, checking_option, known_hosts_option, args_for, command}
use syncctl.Ssh.Valid.{parse_endpoint-IsEndpoint}
use syncctl.Ssh.{Endpoint, parse_endpoint, destination}

-- What `ssh` makes of its arguments: options with their values, then the destination, then the
-- words of the remote command.
pub record SshCall : Type 0 where
  pub options : List (Text × Text)
  pub target : Text
  pub remote : List Text

abbrev with_option : Text → Text → Option SshCall → Option SshCall
with_option flag value none = none
with_option flag value (some call) = some (record call { options = (flag, value) ∷ call.options })

-- Only `-o` and `-p`, which take a value, are known here; the first argument without a dash is
-- the destination.
unfoldable pub ssh_reads : List Text → Option SshCall
unfolding has_prefix text_eq
ssh_reads [] = none
ssh_reads (a ∷ []) =
    if has_prefix a (codes "-")
    then none
    else some (record { options = []; target = a; remote = [] })
ssh_reads (a ∷ v ∷ rest) =
    let tail = ssh_reads rest in
    if text_eq a (codes "-o") || text_eq a (codes "-p")
    then with_option a v tail
    else if has_prefix a (codes "-")
    then none
    else some (record { options = []; target = a; remote = v ∷ rest })

-- The options that a connection has: the checking mode, the file of known hosts and the port, the
-- last two where they are given.
pub connection_options : SshConfig → Endpoint → List (Text × Text)
connection_options c e =
    (codes "-o", checking_option c)
    ∷ ((if is_empty c.known_hosts_file then [] else (codes "-o", known_hosts_option c) ∷ [])
        ++ (if is_empty e.port then [] else (codes "-p", e.port) ∷ []))

destination-no_dash :
    (e : Endpoint)
    → has_prefix e.user (codes "-") ≡ false
    → has_prefix e.host (codes "-") ≡ false
    → has_prefix (destination e) (codes "-") ≡ false
unfolding destination has_prefix
destination-no_dash e u h = ground arith

ssh_reads_target :
    (a v : Text)
    → has_prefix a (codes "-") ≡ false
    → ssh_reads (a ∷ v ∷ []) ≡ some (record { options = []; target = a; remote = v ∷ [] })
unfolding ssh_reads
ssh_reads_target [] v h = refl
ssh_reads_target (c ∷ a) v h = ground arith

ssh_reads-options :
    (c : SshConfig) (e : Endpoint) (target remote : Text)
    → has_prefix target (codes "-") ≡ false
    → ssh_reads (args_for c e ++ (target ∷ remote ∷ []))
      ≡ some (record { options = connection_options c e; target = target; remote = remote ∷ [] })
unfolding args_for connection_options ssh_reads
ssh_reads-options c e target remote h = ground (arith, ssh_reads_target target remote h)

-- `ssh` takes the vector that `Command` builds for one connection: its options are the checking
-- mode, then the file of known hosts and the port if they are given; the destination is that of the
-- endpoint and cannot be read as an option, and the remote command is one argument behind it.
pub ssh_reads-command :
    (c : SshConfig) (host remote : Text) {argv : List Text}
    → command c host remote ≡ ok argv
    → (e : Endpoint) × (parse_endpoint host ≡ ok e)
      × (ssh_reads argv
          ≡ some (record {
            options = connection_options c e;
            target = destination e;
            remote = remote ∷ [];
          }))
unfolding command
ssh_reads-command c host remote h =
    let (e, parsed, built) = >>=-eq-ok (parse_endpoint host) _ h in
    let v = parse_endpoint-IsEndpoint host parsed in
    (
      e,
      parsed,
      ground (
        arith,
        ssh_reads-options c e (destination e) remote
            (destination-no_dash e v.user_no_dash v.host_no_dash),
      ),
    )
