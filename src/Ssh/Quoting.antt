-- ===== src/Ssh/Quoting.antt =====
-- How a shell splits the text of `SSHString`, which is handed to `rsync -e` and GIT_SSH_COMMAND.
use mathlib.Core.List.{append_assoc}
use syncctl.Base.{
  ℕ, true, false, some, List, [], ◌∷◌, ◌++◌, ◌≡◌, refl, ◌∙◌, ap, arith, all, Text, codes, is_empty,
  if◌then◌else◌,
}
use syncctl.Base.Result.{ok, >>=-eq-ok, ok-injective}
use syncctl.Base.Strings.{contains_byte, join}
use syncctl.Shell.Posix.{shell_words}
use syncctl.Shell.Laws.{safe_word, shell_words-safe}
use syncctl.Shell.{safe_chars, is_safe}
use syncctl.Ssh.Command.{
  SshConfig, effective_checking, checking_option, known_hosts_option, args_for, ssh_string,
}
use syncctl.Ssh.Split.{IsPort-all}
use syncctl.Base.Numbers.Laws.{sign_or_digit}
use syncctl.Base.Strings.Laws.{all_mono}
use syncctl.Ssh.Valid.{IsPort, parse_endpoint-IsEndpoint}
use syncctl.Ssh.{Endpoint, parse_endpoint}

sign_or_digit-safe : (c : ℕ) → sign_or_digit c ≡ true → contains_byte safe_chars c ≡ true
unfolding sign_or_digit contains_byte
sign_or_digit-safe c h = ground arith

port-is_safe : (p : Text) → IsPort p → is_safe p ≡ true
unfolding is_safe
port-is_safe p v = all_mono p sign_or_digit-safe (IsPort-all p v)

-- The values of the configuration that go into the options.
pub record HasSafeValues (c : SshConfig) : Type 0 where
  pub file_safe : is_safe c.known_hosts_file ≡ true
  pub mode_safe : is_safe c.strict_host_key_checking ≡ true

checking_option-safe :
    (c : SshConfig) → is_safe c.strict_host_key_checking ≡ true → is_safe (checking_option c) ≡ true
unfolding effective_checking is_safe
checking_option-safe c h = ground arith

known_hosts_option-safe :
    (c : SshConfig) → is_safe c.known_hosts_file ≡ true → is_safe (known_hosts_option c) ≡ true
unfolding is_safe
known_hosts_option-safe c h = h

flag-is_safe : (is_safe (codes "-o") ≡ true) × (is_safe (codes "-p") ≡ true)
unfolding is_safe
flag-is_safe = (refl, refl)

args_for-safe :
    (c : SshConfig) (e : Endpoint)
    → HasSafeValues c
    → is_safe e.port ≡ true
    → all safe_word (args_for c e) ≡ true
unfolding args_for safe_word
args_for-safe c e s p =
    ground (
      arith,
      checking_option-safe c s.mode_safe,
      known_hosts_option-safe c s.file_safe,
      flag-is_safe,
    )

ssh_words :
    (args : List Text)
    → is_empty args ≡ false
    → all safe_word args ≡ true
    → shell_words (codes "ssh " ++ join args (codes " ")) ≡ some (codes "ssh" ∷ args)
unfolding join
ssh_words [] e h = cc
ssh_words (a ∷ args) e h = shell_words-safe (codes "ssh" ∷ a ∷ args) (unfold safe_word is_safe in h)

-- With a file of known hosts and a checking mode of safe characters, a shell splits the text of
-- `SSHString` into `ssh` and exactly the arguments of the connection.
pub shell_words-ssh_string :
    (c : SshConfig) (host : Text) {s : Text}
    → HasSafeValues c
    → ssh_string c host ≡ ok s
    → (e : Endpoint) × (parse_endpoint host ≡ ok e)
      × (shell_words s ≡ some (codes "ssh" ∷ args_for c e))
unfolding ssh_string args_for
shell_words-ssh_string c host safe h =
    let (e, parsed, built) = >>=-eq-ok (parse_endpoint host) _ h in
    let v = parse_endpoint-IsEndpoint host parsed in
    (
      e,
      parsed,
      rw (← ok-injective built) (
          ssh_words (args_for c e) refl
            (args_for-safe c e safe (port-is_safe e.port v.port_valid))),
    )

join-split :
    (a b : Text) (rest : List Text) (sep : Text)
    → join ((a ++ (sep ++ b)) ∷ rest) sep ≡ join (a ∷ b ∷ rest) sep
unfolding join
join-split a b [] sep = refl
join-split a b (w ∷ rest) sep = simp append_assoc

-- The arguments of a connection whose file of known hosts has a blank in its path, as a shell
-- that is given their text unquoted takes them.
pub parted_args : SshConfig → Endpoint → Text → Text → List Text
parted_args c e a b =
    codes "-o"
    ∷ checking_option c
    ∷ codes "-o"
    ∷ (codes "UserKnownHostsFile=" ++ a)
    ∷ b
    ∷ (if is_empty e.port then [] else codes "-p" ∷ e.port ∷ [])

join_fourth :
    (w x y a b sep : Text) (rest : List Text)
    → join (w ∷ x ∷ y ∷ (a ++ (sep ++ b)) ∷ rest) sep ≡ join (w ∷ x ∷ y ∷ a ∷ b ∷ rest) sep
unfolding join
join_fourth w x y a b sep rest =
    ap (λ t. w ++ (sep ++ (x ++ (sep ++ (y ++ (sep ++ t)))))) (join-split a b rest sep)

args_for-given :
    (c : SshConfig) (e : Endpoint)
    → is_empty c.known_hosts_file ≡ false
    → args_for c e
      ≡ codes "-o"
        ∷ checking_option c
        ∷ codes "-o"
        ∷ known_hosts_option c
        ∷ (if is_empty e.port then [] else codes "-p" ∷ e.port ∷ [])
unfolding args_for
args_for-given c e given = ground arith

join-parted :
    (c : SshConfig) (e : Endpoint) (a b : Text)
    → c.known_hosts_file ≡ a ++ (codes " " ++ b)
    → is_empty c.known_hosts_file ≡ false
    → join (args_for c e) (codes " ") ≡ join (parted_args c e a b) (codes " ")
unfolding parted_args
join-parted c e a b path ne =
    let ports : List Text = if is_empty e.port then [] else codes "-p" ∷ e.port ∷ [] in
    rw (args_for-given c e ne) (
      ap
        (λ f.
          join
            (codes "-o"
              ∷ checking_option c
              ∷ codes "-o"
              ∷ (codes "UserKnownHostsFile=" ++ f)
              ∷ ports)
            (codes " "))
        path
      ∙ join_fourth (codes "-o") (checking_option c) (codes "-o") (codes "UserKnownHostsFile=" ++ a)
          b (codes " ") ports)

path_not_empty :
    (a b : Text) (c : SshConfig)
    → c.known_hosts_file ≡ a ++ (codes " " ++ b)
    → is_empty c.known_hosts_file ≡ false
path_not_empty [] b c path = rw path
path_not_empty (x ∷ a) b c path = rw path

parted_args-safe :
    (c : SshConfig) (e : Endpoint) (a b : Text)
    → is_safe c.strict_host_key_checking ≡ true
    → is_safe a ≡ true
    → safe_word b ≡ true
    → is_safe e.port ≡ true
    → all safe_word (parted_args c e a b) ≡ true
unfolding parted_args safe_word
parted_args-safe c e a b m ha hb p = ground (
  arith,
  checking_option-safe c m,
  known_hosts_option-safe (record c { known_hosts_file = a }) ha,
  flag-is_safe,
)

-- The path of the file of known hosts is not quoted: where it holds a blank between safe
-- characters, a shell takes what stands behind the blank for an argument of its own.
pub shell_words-blank_path :
    (c : SshConfig) (host a b : Text) {s : Text}
    → c.known_hosts_file ≡ a ++ (codes " " ++ b)
    → is_safe a ≡ true
    → safe_word b ≡ true
    → is_safe c.strict_host_key_checking ≡ true
    → ssh_string c host ≡ ok s
    → (e : Endpoint) × (parse_endpoint host ≡ ok e)
      × (shell_words s ≡ some (codes "ssh" ∷ parted_args c e a b))
unfolding ssh_string parted_args
shell_words-blank_path c host a b path ha hb hm h =
    let (e, parsed, built) = >>=-eq-ok (parse_endpoint host) _ h in
    let v = parse_endpoint-IsEndpoint host parsed in
    (
      e,
      parsed,
      rw (← ok-injective built, join-parted c e a b path (path_not_empty a b c path))
          (ssh_words (parted_args c e a b) refl
            (parted_args-safe c e a b hm ha hb (port-is_safe e.port v.port_valid))),
    )
