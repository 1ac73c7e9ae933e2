-- ===== src/Tests/Ssh.antt =====
-- The cases of sshexec_test.go, and the theorems about endpoints and arguments at concrete values.
use syncctl.Base.{some, List, [], ◌∷◌, ◌≡◌, refl, true, inr, arith, Text, codes}
use syncctl.Base.Result.{Result, ok, err}
use syncctl.Base.Int.{pos}
use syncctl.Base.Numbers.{atoi}
use syncctl.Base.Strings.{
  has_prefix, contains_byte, contains_any, count_byte, cut, cut_last, trim_prefix_byte,
}
use syncctl.Shell.Laws.{safe_word}
use syncctl.Shell.Posix.{shell_words}
use syncctl.Shell.{is_safe}
use syncctl.Ssh.Argv.{ssh_reads, connection_options, ssh_reads-command}
use syncctl.Ssh.Command.{SshConfig, args_for, command, ssh_string}
use syncctl.Ssh.Quoting.{HasSafeValues, parted_args, shell_words-ssh_string, shell_words-blank_path}
use syncctl.Ssh.RoundTrip.{parse_endpoint-authority}
use syncctl.Ssh.Valid.{IsEndpoint, parse_endpoint-IsEndpoint}
use syncctl.Ssh.{
  Endpoint, HostError, host_char, host_dash, port_out_of_range, empty_user, parse_endpoint,
  authority, destination, git_url,
}

abbrev git_host : Endpoint
git_host = record { user = codes "git"; host = codes "gitlab.example.com"; port = codes "2222" }

abbrev loopback : Endpoint
loopback = record { user = codes "root"; host = codes "::1"; port = codes "22" }

-- All that a run of the parser computes with.
parse : Text → Result HostError Endpoint
unfolding parse_endpoint host_char atoi contains_any contains_byte cut_last count_byte cut
    has_prefix
parse = parse_endpoint

git_host_parsed : parse_endpoint (codes " git@gitlab.example.com:2222\n") ≡ ok git_host
unfolding parse
git_host_parsed = refl

errors :
    (parse_endpoint (codes "-oProxyCommand=id") ≡ err host_dash)
    × (parse_endpoint (codes "a:70000") ≡ err (port_out_of_range (pos 70000)))
    × (parse_endpoint (codes "@host") ≡ err empty_user)
unfolding parse
errors = (refl, refl, refl)

git_url-loopback : git_url loopback (codes "/a/b.git") ≡ codes "ssh://root@[::1]:22/a/b.git"
unfolding parse git_url trim_prefix_byte
git_url-loopback = refl

loopback-IsEndpoint : IsEndpoint loopback
unfolding parse
loopback-IsEndpoint = record {
  host_not_empty = refl;
  host_valid = refl;
  host_no_dash = refl;
  user_valid = refl;
  user_no_dash = refl;
  port_valid = inr (22, refl, omega arith, omega arith);
}

parse_endpoint-IsEndpoint_example : IsEndpoint git_host
parse_endpoint-IsEndpoint_example =
    parse_endpoint-IsEndpoint (codes " git@gitlab.example.com:2222\n") git_host_parsed

parse_endpoint-authority_example : parse_endpoint (authority loopback) ≡ ok loopback
parse_endpoint-authority_example = parse_endpoint-authority loopback loopback-IsEndpoint

abbrev pinned : SshConfig
pinned = record {
  known_hosts_file = codes "/etc/syncctl/known_hosts";
  strict_host_key_checking = [];
}

abbrev pinned_argv : List Text
pinned_argv =
    codes "-o"
    ∷ codes "StrictHostKeyChecking=yes"
    ∷ codes "-o"
    ∷ codes "UserKnownHostsFile=/etc/syncctl/known_hosts"
    ∷ codes "-p"
    ∷ codes "2222"
    ∷ codes "git@gitlab.example.com"
    ∷ codes "echo ok"
    ∷ []

pinned-command :
    command pinned (codes "git@gitlab.example.com:2222") (codes "echo ok") ≡ ok pinned_argv
unfolding parse command
pinned-command = refl

ssh_reads-command_example :
    (e : Endpoint) × (parse_endpoint (codes "git@gitlab.example.com:2222") ≡ ok e)
    × (ssh_reads pinned_argv
        ≡ some (record {
          options = connection_options pinned e;
          target = destination e;
          remote = codes "echo ok" ∷ [];
        }))
ssh_reads-command_example =
    ssh_reads-command pinned (codes "git@gitlab.example.com:2222") (codes "echo ok") pinned-command

abbrev pinned_text : Text
pinned_text =
    codes "ssh -o StrictHostKeyChecking=yes -o UserKnownHostsFile=/etc/syncctl/known_hosts -p 2222"

pinned-ssh_string : ssh_string pinned (codes "git@gitlab.example.com:2222") ≡ ok pinned_text
unfolding parse ssh_string
pinned-ssh_string = refl

pinned-HasSafeValues : HasSafeValues pinned
unfolding is_safe
pinned-HasSafeValues = record { file_safe = refl; mode_safe = refl }

shell_words-ssh_string_example :
    (e : Endpoint) × (parse_endpoint (codes "git@gitlab.example.com:2222") ≡ ok e)
    × (shell_words pinned_text ≡ some (codes "ssh" ∷ args_for pinned e))
shell_words-ssh_string_example =
    shell_words-ssh_string pinned (codes "git@gitlab.example.com:2222") pinned-HasSafeValues
      pinned-ssh_string

abbrev spaced : SshConfig
spaced = record { known_hosts_file = codes "/etc/my hosts"; strict_host_key_checking = codes "yes" }

abbrev spaced_text : Text
spaced_text = codes "ssh -o StrictHostKeyChecking=yes -o UserKnownHostsFile=/etc/my hosts"

spaced-ssh_string : ssh_string spaced (codes "replica") ≡ ok spaced_text
unfolding parse ssh_string
spaced-ssh_string = refl

spaced_safe :
    (is_safe (codes "/etc/my") ≡ true)
    × (safe_word (codes "hosts") ≡ true)
    × (is_safe spaced.strict_host_key_checking ≡ true)
unfolding safe_word is_safe
spaced_safe = (refl, refl, refl)

shell_words-blank_path_example :
    (e : Endpoint) × (parse_endpoint (codes "replica") ≡ ok e)
    × (shell_words spaced_text
        ≡ some (codes "ssh" ∷ parted_args spaced e (codes "/etc/my") (codes "hosts")))
shell_words-blank_path_example =
    shell_words-blank_path spaced (codes "replica") (codes "/etc/my") (codes "hosts") refl
      spaced_safe.0 spaced_safe.1 spaced_safe.2 spaced-ssh_string
