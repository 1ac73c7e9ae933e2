-- ===== src/Rsync/Paths.antt =====
-- fsstorage/reconciler.go: `New`, `rsyncPath` and `Reconcile`, without the metrics and the time.
use syncctl.Base.{
  ℕ, suc, Bool, true, false, not, ◌&&◌, ◌||◌, Option, none, some, List, [], ◌∷◌, ◌++◌, map, length,
  ltb, Text, codes, is_empty, text_eq, if◌then◌else◌,
}
use syncctl.Base.Result.{Result, ok, err, ◌>>=◌}
use syncctl.Base.Strings.{contains, trim_space}
use syncctl.Config.Types.{SiteConfig, RegistryConfig}
use syncctl.Ssh.{HostError, parse_endpoint}
use syncctl.Ssh.Command.{SshConfig, ssh_string}
use syncctl.Rsync.{Args, RsyncWorld, rsync_args}

pub record PathPair : Type 0 where
  pub src : Text
  pub dst : Text

-- `Reconciler`
pub record FsStorage : Type 0 where
  pub site : Text
  pub ssh_host : Text
  pub ssh : SshConfig
  pub path_pairs : List PathPair
  pub dry_run : Bool

-- Where the registry of the secondary lies.
abbrev registry_dst : Text → Option RegistryConfig → Text
registry_dst src none = src
registry_dst src (some r) = if not (is_empty r.fs_path) then r.fs_path else src

unfoldable pub registry_pairs : Option RegistryConfig → Option RegistryConfig → List PathPair
unfolding text_eq
registry_pairs none secondary = []
registry_pairs (some r) secondary =
    if text_eq r.mode (codes "fs") && not (is_empty r.fs_path)
    then record { src = r.fs_path; dst = registry_dst r.fs_path secondary } ∷ []
    else []

-- `New`
unfoldable pub new_fs_storage : SiteConfig → SiteConfig → Text → Bool → SshConfig → FsStorage
unfolding registry_pairs
new_fs_storage primary secondary site dry_run ssh = record {
  site = site;
  ssh_host = primary.ssh_host;
  ssh = ssh;
  path_pairs =
      map (λ (p : Text). record { src = p; dst = p }) primary.object_store.fs_paths
      ++ registry_pairs primary.registry secondary.registry;
  dry_run = dry_run;
}

-- The outcome for one path: copied, not there on the primary, or another error.
pub data PathResult : Type 0 where
  copied missing path_failed : PathResult

-- The verdict on what a failed run printed.
unfoldable pub judge_output : Text → PathResult
unfolding contains trim_space
judge_output out =
    let text = trim_space out in
    if contains text (codes "No such file or directory") || contains text (codes "change_dir")
    then missing
    else path_failed

abbrev pub judge_run : Option Text → PathResult
judge_run none = copied
judge_run (some out) = judge_output out

-- The counters, and the runs.
pub record FsProgress : Type 0 where
  pub repaired : ℕ
  pub skipped : ℕ
  pub failed : ℕ
  pub log : List Args

abbrev pub noted : PathResult × List Args → FsProgress → FsProgress
noted (copied, log) s = record s { repaired = suc s.repaired; log = log }
noted (missing, log) s = record s { skipped = suc s.skipped; log = log }
noted (path_failed, log) s = record s { failed = suc s.failed; log = log }

-- `Detail`, as a value
pub data FsDetail : Type 0 where
  no_paths cancelled_between : FsDetail
  -- copied, of all, failed, and missing
  copied_some : ℕ → ℕ → ℕ → ℕ → FsDetail
  -- copied, and missing
  copied_all : ℕ → ℕ → FsDetail

-- `Result`
pub record FsOutcome : Type 0 where
  pub in_sync : Bool
  pub detail : FsDetail
  pub repaired : ℕ
  pub remaining : ℕ

unfoldable pub fs_outcome : ℕ → Bool × FsProgress → FsOutcome
fs_outcome total (true, s) = record {
  in_sync = false;
  detail = cancelled_between;
  repaired = 0;
  remaining = total;
}
fs_outcome total (false, s) =
    if ltb 0 s.failed
    then record {
      in_sync = false;
      detail = copied_some s.repaired total s.failed s.skipped;
      repaired = s.repaired;
      remaining = s.failed;
    }
    else record {
      in_sync = true;
      detail = copied_all s.repaired s.skipped;
      repaired = s.repaired;
      remaining = 0;
    }

module _ (r : FsStorage) where
  -- The arguments of `rsyncPath`.
  unfoldable pub path_args : PathPair → Result HostError Args
  unfolding parse_endpoint ssh_string rsync_args
  path_args p = do
    ep ← parse_endpoint r.ssh_host
    ssh_cmd ← ssh_string r.ssh r.ssh_host
    ok (rsync_args ssh_cmd r.dry_run ep p.src p.dst)

  module _ (w : RsyncWorld) where
    abbrev pub run_path : Result HostError Args → List Args → PathResult × List Args
    run_path (err e) log = (path_failed, log)
    run_path (ok args) log = (judge_run (w.fails log args), log ++ args ∷ [])

    -- `rsyncPath`
    unfoldable pub rsync_path : PathPair → List Args → PathResult × List Args
    unfolding path_args judge_output
    rsync_path p log = run_path (path_args p) log

    -- The loop, with whether the context was done within it.
    unfoldable pub copy_paths : List PathPair → FsProgress → Bool × FsProgress
    unfolding rsync_path
    copy_paths [] s = (false, s)
    copy_paths (p ∷ ps) s =
        let rest = copy_paths ps (noted (rsync_path p s.log) s) in
        if w.cancelled s.log then (true, s) else rest

    abbrev pub then_fs_outcome : ℕ → Bool × FsProgress → FsOutcome × List Args
    then_fs_outcome total (stopped, s) = (fs_outcome total (stopped, s), s.log)

    -- `Reconcile`, for the path pairs
    unfoldable pub reconcile_pairs : List PathPair → List Args → FsOutcome × List Args
    unfolding copy_paths fs_outcome
    reconcile_pairs [] log =
        (record { in_sync = true; detail = no_paths; repaired = 0; remaining = 0 }, log)
    reconcile_pairs (p ∷ ps) log =
        then_fs_outcome (length (p ∷ ps))
          (copy_paths (p ∷ ps) (record { repaired = 0; skipped = 0; failed = 0; log = log }))

    unfoldable pub reconcile_paths : List Args → FsOutcome × List Args
    unfolding reconcile_pairs
    reconcile_paths = reconcile_pairs r.path_pairs
