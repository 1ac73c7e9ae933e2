-- ===== src/Gitfetch/Project.antt =====
-- gitfetch/reconciler.go: `resolveProject` and `FetchProject`, the fetch of one project for the webhook.
use syncctl.Base.{Bool, true, false, Option, none, some, List, ◌++◌, Text, codes}
use syncctl.Base.Int.{ℤ, pos}
use syncctl.Base.Result.{Result, ok, err, ◌>>=◌, ◌>>◌, map_error}
use syncctl.ProjectPath.{PathError, validate}
use syncctl.Gitfetch.Paths.{DiskError, repo_disk_path}
use syncctl.Gitfetch.Fetch.{Fetcher, ProjectRow, GitCommand, GitWorld, fetch_one}

pub data ProjectError : Type 0 where
  invalid_path : PathError → ProjectError
  look_up not_found scan_failed : ProjectError
  unresolved : DiskError → ProjectError
  fetch_failed : ProjectError

-- What the query of `resolveProject` gives: an error, no row, a row that cannot be read, or the id of
-- the project and whether its storage is hashed.
pub data Found : Type 0 where
  query_error no_row unreadable : Found
  row : ℤ → Bool → Found

module _ (digest : Text → Text) where
  -- `resolveProject`; without a pool there is only the legacy layout.
  unfoldable pub resolve_project : Option (Text → Found) → Text → Result ProjectError ProjectRow
  unfolding repo_disk_path
  resolve_project none path = ok (record { id = pos 0; repo_path = path ++ codes ".git" })
  resolve_project (some query) path = elim (query path) [
    | query_error ↦ err look_up
    | no_row ↦ err not_found
    | unreadable ↦ err scan_failed
    | row id hashed ↦ do
      disk ← map_error unresolved (repo_disk_path digest hashed path id)
      ok (record { id = id; repo_path = disk })
  ]

  module _ (f : Fetcher) (w : GitWorld) (query : Option (Text → Found)) where
    abbrev judged : Bool × List GitCommand → Result ProjectError (Unit {0}) × List GitCommand
    judged (true, log) = (ok tt, log)
    judged (false, log) = (err fetch_failed, log)

    abbrev fetch_resolved :
        Result ProjectError ProjectRow
        → List GitCommand
        → Result ProjectError (Unit {0}) × List GitCommand
    fetch_resolved (err e) log = (err e, log)
    fetch_resolved (ok p) log = judged (fetch_one f w p log)

    -- `FetchProject`
    unfoldable pub fetch_project :
        Text → List GitCommand → Result ProjectError (Unit {0}) × List GitCommand
    unfolding fetch_one resolve_project validate
    fetch_project path log =
        fetch_resolved (do map_error invalid_path (validate path); resolve_project query path) log
