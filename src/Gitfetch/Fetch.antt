-- ===== src/Gitfetch/Fetch.antt =====
-- gitfetch/reconciler.go: the list of projects, one fetch, and the sweep over all.
-- The workers of a sweep share only its two counters, and each runs at most
-- one command: a sweep is modelled by the order in which its workers come to run.
use syncctl.Base.{
  ℕ, suc, Bool, true, false, not, Option, none, some, List, [], ◌∷◌, ◌++◌, length, ltb, Text, codes,
  is_empty, if◌then◌else◌,
}
use syncctl.Base.Int.{ℤ, pos, ltb_ℤ}
use syncctl.Base.Result.{Result, ok, err, ◌>>=◌, map_error}
use syncctl.Ssh.{HostError, parse_endpoint, git_url}
use syncctl.Ssh.Command.{SshConfig, ssh_string}
use syncctl.Gitfetch.Paths.{DiskError, Outside, repo_disk_path, contained_join}

-- `Reconciler`, without the pool and the runner, which are arguments
pub record Fetcher : Type 0 where
  pub primary_ssh_host : Text
  pub repos_path : Text
  pub ssh : SshConfig
  pub dry_run : Bool
  pub max_parallel : ℤ

-- `projectRow`
pub record ProjectRow : Type 0 where
  pub id : ℤ
  pub repo_path : Text

-- What the query of `listProjects` gives for a project; the storage shard is not used.
pub record DbRow : Type 0 where
  pub id : ℤ
  pub hashed : Bool
  pub route : Option Text

-- `sql.NullString`, whose text is empty for NULL
abbrev text_of : Option Text → Text
text_of none = []
text_of (some t) = t

-- A run of `git`: its arguments and what is added to its environment.
pub record GitCommand : Type 0 where
  pub args : List Text
  pub env : List Text

-- Whether a run fails, and whether the context is done, by the commands that ran before.
pub record GitWorld : Type 0 where
  pub fails : List GitCommand → GitCommand → Bool
  pub cancelled : List GitCommand → Bool

module _ (digest : Text → Text) where
  abbrev keep_path : ℤ → Result DiskError Text → List ProjectRow → List ProjectRow
  keep_path id (ok path) rest = record { id = id; repo_path = path } ∷ rest
  keep_path id (err e) rest = rest

  -- The loop over the rows; a row whose path is malformed is skipped, and one that cannot be read ends
  -- the listing.
  unfoldable pub keep_rows : List (Result Text DbRow) → Result Text (List ProjectRow)
  unfolding repo_disk_path
  keep_rows [] = ok []
  keep_rows (err e ∷ rows) = err e
  keep_rows (ok row ∷ rows) = do
    rest ← keep_rows rows
    ok (keep_path row.id (repo_disk_path digest row.hashed (text_of row.route) row.id) rest)

  -- What follows the loop is the error that ended the rows, if there is one.
  abbrev then_error : Option Text → Result Text (List ProjectRow) → Result Text (List ProjectRow)
  then_error none listed = listed
  then_error (some e) (ok _) = err e
  then_error (some e) (err e') = err e'

  -- `listProjects`
  unfoldable pub list_projects :
      Result Text (List (Result Text DbRow) × Option Text) → Result Text (List ProjectRow)
  unfolding keep_rows
  list_projects (err e) = err e
  list_projects (ok (rows, ended)) = then_error ended (keep_rows rows)

pub data FetchError : Type 0 where
  no_repo_path : FetchError
  bad_ssh_host : HostError → FetchError
  outside_root : Outside → FetchError

abbrev pub storage_root : Text
storage_root = codes "/var/opt/gitlab/git-data/repositories/"

abbrev pub fetch_args : Text → Text → List Text
fetch_args local_path remote_url =
    codes "-C"
    ∷ local_path
    ∷ codes "fetch"
    ∷ codes "--prune"
    ∷ codes "--no-tags"
    ∷ remote_url
    ∷ codes "+refs/*:refs/*"
    ∷ codes "+refs/tags/*:refs/tags/*"
    ∷ []

-- The counters `repaired` and `failed`, and the commands that ran.
pub record Progress : Type 0 where
  pub repaired : ℕ
  pub failed : ℕ
  pub log : List GitCommand

abbrev pub counted : Bool × List GitCommand → Progress → Progress
counted (true, log) s = record { repaired = suc s.repaired; failed = s.failed; log = log }
counted (false, log) s = record { repaired = s.repaired; failed = suc s.failed; log = log }

module _ (w : GitWorld) where
  -- The run of the command, unless it is a dry one.
  abbrev pub run_git :
      Bool → Result FetchError GitCommand → List GitCommand → Bool × List GitCommand
  run_git dry (err e) log = (false, log)
  run_git dry (ok c) log = if dry then (true, log) else (not (w.fails log c), log ++ c ∷ [])

module _ (f : Fetcher) where
  -- The command of `fetchOne`, up to its run.
  unfoldable pub fetch_command : ProjectRow → Result FetchError GitCommand
  unfolding parse_endpoint ssh_string contained_join git_url
  fetch_command p =
      let built : Result FetchError GitCommand = do
        ep ← map_error bad_ssh_host (parse_endpoint f.primary_ssh_host)
        ssh_cmd ← map_error bad_ssh_host (ssh_string f.ssh f.primary_ssh_host)
        local_path ← map_error outside_root (contained_join f.repos_path p.repo_path)
        ok (record {
          args = fetch_args local_path (git_url ep (storage_root ++ p.repo_path));
          env = (codes "GIT_SSH_COMMAND=" ++ ssh_cmd) ∷ [];
        })
      in if is_empty p.repo_path then err no_repo_path else built

  module _ (w : GitWorld) where
    -- `fetchOne`
    unfoldable pub fetch_one : ProjectRow → List GitCommand → Bool × List GitCommand
    unfolding fetch_command
    fetch_one p log = run_git w f.dry_run (fetch_command p) log

    -- The loop that starts a worker for each project, until the context is done.
    unfoldable pub fetch_all : List ProjectRow → Progress → Progress
    unfolding fetch_one
    fetch_all [] s = s
    fetch_all (p ∷ projects) s =
        let rest = fetch_all projects (counted (fetch_one p s.log) s) in
        if w.cancelled s.log then s else rest

-- `Detail`, as a value, without the time that passed
pub data FetchDetail : Type 0 where
  list_failed : Text → FetchDetail
  no_projects : FetchDetail
  -- fetched, of all, failed, and side by side
  fetched_some : ℕ → ℕ → ℕ → ℤ → FetchDetail
  -- all, and side by side
  fetched : ℕ → ℤ → FetchDetail

-- `Result`
pub record FetchOutcome : Type 0 where
  pub in_sync : Bool
  pub detail : FetchDetail
  pub repaired : ℕ
  pub remaining : ℕ

-- The limit of workers that run side by side.
unfoldable pub parallel_of : ℤ → ℕ → ℤ
parallel_of most projects =
    let least = if ltb_ℤ most (pos 1) then pos 1 else most in
    if ltb_ℤ (pos projects) least then pos projects else least

unfoldable pub outcome_of : ℤ → ℕ → Progress → FetchOutcome
outcome_of parallel total s =
    if ltb 0 s.failed
    then record {
      in_sync = false;
      detail = fetched_some s.repaired total s.failed parallel;
      repaired = s.repaired;
      remaining = s.failed;
    }
    else record {
      in_sync = true;
      detail = fetched total parallel;
      repaired = s.repaired;
      remaining = 0;
    }

module _ (f : Fetcher) (w : GitWorld) where
  abbrev then_outcome : ℕ → Progress → FetchOutcome × List GitCommand
  then_outcome total s = (outcome_of (parallel_of f.max_parallel total) total s, s.log)

  -- `Reconcile`, behind the answer of `listProjects`
  unfoldable pub reconcile_listed :
      Result Text (List ProjectRow) → List GitCommand → FetchOutcome × List GitCommand
  unfolding fetch_all outcome_of parallel_of
  reconcile_listed (err e) log =
      (record { in_sync = false; detail = list_failed e; repaired = 0; remaining = 1 }, log)
  reconcile_listed (ok []) log =
      (record { in_sync = true; detail = no_projects; repaired = 0; remaining = 0 }, log)
  reconcile_listed (ok (p ∷ projects)) log =
      then_outcome (length (p ∷ projects))
        (fetch_all f w (p ∷ projects) (record { repaired = 0; failed = 0; log = log }))
