-- ===== src/Doctor/Hosts.antt =====
-- doctor/doctor.go: the checks of the hosts, over SSH, and of the object storage.
use syncctl.Base.{
  ◌||◌, Option, none, some, List, [], ◌∷◌, ◌++◌, Text, codes, is_empty, text_eq, if◌then◌else◌,
}
use syncctl.Base.Result.{Result, ok, err}
use syncctl.Base.Strings.{cut, split, trim_space}
use syncctl.Config.Types.{S3Config}
use syncctl.Shell.{quote}
use syncctl.Effects.{Log, World, SshError, Runner}
use syncctl.Dbkey.{CheckError, check_keys}
use syncctl.Doctor.{Status, pass, fail, warn, Check}

abbrev pub checked : Text → Text → Status → Text → Check
checked name category status detail = record {
  name = name;
  category = category;
  status = status;
  detail = detail;
}

-- The verdict on the outcome of a command, and the requests so far.
abbrev pub Outcome : Type 0
Outcome = Result SshError Text × Log

-- The last line.
abbrev last_line : List Text → Text
last_line [] = []
last_line (w ∷ []) = w
last_line (w ∷ v ∷ ws) = last_line (v ∷ ws)

-- `dbKeyPresentCmd`
abbrev pub db_key_present_cmd : Text
db_key_present_cmd =
    codes "sudo grep -c 'db_key_base' /var/opt/gitlab/gitlab-rails/etc/secrets.yml 2>/dev/null || "
    ++ codes "grep -c 'db_key_base' /var/opt/gitlab/gitlab-rails/etc/secrets.yml 2>/dev/null || "
    ++ codes
        "sudo grep -c \"gitlab_rails\\['db_key_base'\\]\" /etc/gitlab/gitlab.rb 2>/dev/null || "
    ++ codes
        "grep -c \"gitlab_rails\\['db_key_base'\\]\" /etc/gitlab/gitlab.rb 2>/dev/null || echo 0"

-- What stands before the first line end, if there is something.
abbrev line_or : Text → Option (Text × Text) → Text
line_or whole none = whole
line_or whole (some (line, rest)) = if is_empty line then whole else line

unfoldable pub first_line : Text → Text
unfolding cut
first_line s = line_or s (cut s 0x0a)

-- The count of keys that the command prints, on its last line.
unfoldable pub key_count : Text → Text
unfolding trim_space split
key_count out = trim_space (last_line (split (trim_space out) 0x0a))

unfoldable pub ssh_of : Text → Text → Outcome → Check × Log
ssh_of label host (ok out, l) =
    (checked (codes "ssh:" ++ label) (codes "connectivity") pass host, l)
ssh_of label host (err e, l) =
    (checked (codes "ssh:" ++ label) (codes "connectivity") fail (codes "ssh " ++ host), l)

unfoldable pub key_present_of : Text → Outcome → Check × Log
unfolding key_count text_eq
key_present_of label (err e, l) =
    (checked (codes "dbkey:" ++ label) (codes "dbkey") fail (codes "ssh"), l)
key_present_of label (ok out, l) =
    if text_eq (key_count out) (codes "0")
    then (
      checked (codes "dbkey:" ++ label) (codes "dbkey") fail
          (codes "db_key_base not found in secrets.yml or gitlab.rb"),
      l,
    )
    else (
      checked (codes "dbkey:" ++ label) (codes "dbkey") pass
          (codes "present in secrets.yml or gitlab.rb"),
      l,
    )

unfoldable pub parity_of : Text → Result CheckError (Unit {0}) × Log → Check × Log
parity_of name (ok _, l) = (
  checked (codes "dbkey:parity:" ++ name) (codes "dbkey") pass
      (codes "primary and secondary match"),
  l,
)
parity_of name (err e, l) =
    (checked (codes "dbkey:parity:" ++ name) (codes "dbkey") fail (codes "check failed"), l)

unfoldable pub binary_of : Text → Text → Outcome → Check × Log
unfolding first_line trim_space
binary_of name bin (ok out, l) =
    (checked name (codes "tools") pass (first_line (trim_space out)), l)
binary_of name bin (err e, l) = (checked name (codes "tools") fail (bin ++ codes " not found"), l)

unfoldable pub path_of : Text → Text → Outcome → Check × Log
path_of name path (ok out, l) = (checked name (codes "filesystem") pass path, l)
path_of name path (err e, l) = (
  checked name (codes "filesystem") warn
      (path ++ codes " does not exist yet (will be created on first sync)"),
  l,
)

module _ (w : World) (runner : Runner) where
  -- `sshCheck`
  unfoldable pub ssh_check : Text → Text → Log → Check × Log
  unfolding ssh_of
  ssh_check label host l =
      if is_empty host
      then (
        checked (codes "ssh:" ++ label) (codes "connectivity") warn
            (codes "ssh_host not configured (needed for rsync/fetch/failover)"),
        l,
      )
      else ssh_of label host (runner host (codes "echo ok") l)

  -- `dbKeyPresentCheck`
  unfoldable pub db_key_present_check : Text → Text → Log → Check × Log
  unfolding key_present_of
  db_key_present_check label host l =
      if is_empty host
      then (
        checked (codes "dbkey:" ++ label) (codes "dbkey") warn (codes "ssh_host not configured"),
        l,
      )
      else key_present_of label (runner host db_key_present_cmd l)

  -- `dbKeyParityCheck`
  unfoldable pub db_key_parity_check : Text → Text → Text → Log → Check × Log
  unfolding parity_of check_keys
  db_key_parity_check primary secondary name l =
      parity_of name (check_keys w runner primary secondary l)

  -- `remoteBinaryCheck`
  unfoldable pub remote_binary_check : Text → Text → Text → Text → Log → Check × Log
  unfolding binary_of
  remote_binary_check label bin host cmd l =
      if is_empty host
      then (
        checked (bin ++ (b':' ∷ label)) (codes "tools") warn (codes "ssh_host not configured"),
        l,
      )
      else binary_of (bin ++ (b':' ∷ label)) bin (runner host cmd l)

  -- `rsyncCheck` and `gitCheck`
  unfoldable pub rsync_check : Text → Text → Log → Check × Log
  unfolding remote_binary_check
  rsync_check label host = remote_binary_check label (codes "rsync") host (codes "rsync --version")

  unfoldable pub git_check : Text → Text → Log → Check × Log
  unfolding remote_binary_check
  git_check label host = remote_binary_check label (codes "git") host (codes "git --version")

  -- `pathExistsCheck`
  unfoldable pub path_exists_check : Text → Text → Text → Text → Log → Check × Log
  unfolding path_of quote
  path_exists_check label host path path_name l =
      let name = codes "path:" ++ (label ++ (b':' ∷ path_name)) in
      if is_empty host
      then (checked name (codes "filesystem") warn (codes "ssh_host not configured"), l)
      else path_of name path (runner host (codes "test -d " ++ quote path) l)

-- `s3BucketCheck`
unfoldable pub s3_bucket_check : Text → S3Config → Check
s3_bucket_check label s3 =
    let name = codes "s3:" ++ label in
    if is_empty s3.primary_bucket
    then checked name (codes "storage") fail (codes "primary_bucket not set")
    else if is_empty s3.replica_bucket
    then checked name (codes "storage") fail (codes "replica_bucket not set")
    else if is_empty s3.access_key || is_empty s3.secret_key
    then checked name (codes "storage") fail (codes "access_key/secret_key empty (check env vars)")
    else checked name (codes "storage") pass
        (codes "primary=" ++ (s3.primary_bucket ++ (codes " replica=" ++ s3.replica_bucket)))
