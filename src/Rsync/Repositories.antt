-- ===== src/Rsync/Repositories.antt =====
-- gitrsync/reconciler.go: one run of `rsync` for the tree of the repositories.
use syncctl.Base.{ℕ, Bool, true, false, Option, none, some, List, [], ◌∷◌, ◌++◌, Text}
use syncctl.Base.Result.{Result, ok, err, ◌>>=◌}
use syncctl.Config.Types.{SiteConfig}
use syncctl.Ssh.{HostError, parse_endpoint}
use syncctl.Ssh.Command.{SshConfig, ssh_string}
use syncctl.Rsync.{Args, RsyncWorld, rsync_args}

-- `Reconciler`
pub record GitRsync : Type 0 where
  pub site : Text
  pub ssh_host : Text
  pub src_path : Text
  pub dst_path : Text
  pub ssh : SshConfig
  pub dry_run : Bool

-- `New`
unfoldable pub new_git_rsync : SiteConfig → SiteConfig → Text → Bool → SshConfig → GitRsync
new_git_rsync primary secondary site dry_run ssh = record {
  site = site;
  ssh_host = primary.ssh_host;
  src_path = primary.git.repos_path;
  dst_path = secondary.git.repos_path;
  ssh = ssh;
  dry_run = dry_run;
}

-- `Detail`, as a value
pub data GitDetail : Type 0 where
  bad_host : HostError → GitDetail
  rsync_failed : Text → GitDetail
  rsync_ok : Bool → GitDetail

-- `Result`
pub record GitOutcome : Type 0 where
  pub in_sync : Bool
  pub detail : GitDetail
  pub remaining : ℕ

module _ (r : GitRsync) where
  unfoldable pub tree_args : Result HostError Args
  unfolding parse_endpoint ssh_string rsync_args
  tree_args = do
    ep ← parse_endpoint r.ssh_host
    ssh_cmd ← ssh_string r.ssh r.ssh_host
    ok (rsync_args ssh_cmd r.dry_run ep r.src_path r.dst_path)

  abbrev pub judge_tree : Option Text → GitOutcome
  judge_tree none = record { in_sync = true; detail = rsync_ok r.dry_run; remaining = 0 }
  judge_tree (some out) = record { in_sync = false; detail = rsync_failed out; remaining = 1 }

  abbrev pub run_tree : RsyncWorld → Result HostError Args → List Args → GitOutcome × List Args
  run_tree w (err e) log = (record { in_sync = false; detail = bad_host e; remaining = 1 }, log)
  run_tree w (ok args) log = (judge_tree (w.fails log args), log ++ args ∷ [])

  -- `Reconcile`
  unfoldable pub reconcile_tree : RsyncWorld → List Args → GitOutcome × List Args
  unfolding tree_args
  reconcile_tree w log = run_tree w tree_args log
