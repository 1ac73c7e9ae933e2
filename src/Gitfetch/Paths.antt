-- ===== src/Gitfetch/Paths.antt =====
-- gitfetch/reconciler.go: where the repository of a project lies, `repoDiskPath` and
-- `containedJoin`. The digest is a parameter, which gives the hexadecimal text of SHA-256.
use syncctl.Base.{
  Bool, not, ◌&&◌, ◌∷◌, ◌++◌, take, drop, Text, codes, is_empty, text_eq, if◌then◌else◌,
}
use syncctl.Base.Int.{ℤ}
use syncctl.Base.Numbers.{itoa}
use syncctl.Base.Result.{Result, ok, err}
use syncctl.Base.Strings.{has_prefix}
use syncctl.Base.FilePaths.{clean, join_paths}
use syncctl.ProjectPath.{PathError, validate}

pub data DiskError : Type 0 where
  no_route_path : DiskError
  invalid_route : Text → PathError → DiskError

-- The legacy layout, behind the gate on the route.
unfoldable pub legacy_path : Text → Result PathError (Unit {0}) → Result DiskError Text
legacy_path route (ok _) = ok (route ++ codes ".git")
legacy_path route (err e) = err (invalid_route route e)

-- The hashed layout, by a digest.
abbrev pub hashed_path : Text → Text
hashed_path h =
    codes "@hashed/" ++ (take 2 h ++ (b'/' ∷ (take 2 (drop 2 h) ++ (b'/' ∷ (h ++ codes ".git")))))

module _ (digest : Text → Text) where
  -- `hashedStorageHash`
  unfoldable pub hashed_storage_hash : ℤ → Text
  unfolding itoa
  hashed_storage_hash id = digest (itoa id)

  -- `repoDiskPath`
  unfoldable pub repo_disk_path : Bool → Text → ℤ → Result DiskError Text
  unfolding legacy_path validate hashed_storage_hash
  repo_disk_path hashed route id =
      if hashed
      then ok (hashed_path (hashed_storage_hash id))
      else if is_empty route
      then err no_route_path
      else legacy_path route (validate route)

-- The error of `containedJoin`: the path, where it leads, and the root.
pub record Outside : Type 0 where
  pub path : Text
  pub resolved : Text
  pub root : Text

-- The check of the joined path.
unfoldable pub check_contained : Text → Text → Text → Result Outside Text
unfolding has_prefix text_eq
check_contained rel joined clean_root =
    if not (text_eq joined clean_root) && not (has_prefix joined (clean_root ++ codes "/"))
    then err (record { path = rel; resolved = joined; root = clean_root })
    else ok joined

-- `containedJoin`
unfoldable pub contained_join : Text → Text → Result Outside Text
unfolding check_contained join_paths clean
contained_join root rel = check_contained rel (join_paths root rel) (clean root)
