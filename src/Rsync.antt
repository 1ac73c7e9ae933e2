-- ===== src/Rsync.antt =====
-- internal/reconciler/fsstorage and internal/reconciler/gitrsync: directories that `rsync` copies from the
-- primary. The arguments of `rsync` and the run of it are in this file; both packages write them out.
pub mod Paths
pub mod Mirrored
pub mod Repositories
use syncctl.Base.{Bool, Option, List, [], ◌∷◌, ◌++◌, if◌then◌else◌, Text, codes}
use syncctl.Ssh.{Endpoint, destination}

-- The arguments of a run.
abbrev pub Args : Type 0
Args = List Text

-- What a run prints if it fails, and whether the context is done, by the runs before.
pub record RsyncWorld : Type 0 where
  pub fails : List Args → Args → Option Text
  pub cancelled : List Args → Bool

-- The variable `args` of both packages.
unfoldable pub rsync_args : Text → Bool → Endpoint → Text → Text → Args
unfolding destination
rsync_args ssh_cmd dry_run ep src dst =
    (codes "-az"
      ∷ codes "--delete"
      ∷ codes "--checksum"
      ∷ codes "-s"
      ∷ codes "-e"
      ∷ ssh_cmd
      ∷ codes "--rsync-path"
      ∷ codes "sudo rsync"
      ∷ [])
    ++ ((if dry_run then codes "--dry-run" ∷ [] else [])
        ++ ((destination ep ++ (b':' ∷ (src ++ codes "/"))) ∷ (dst ++ codes "/") ∷ []))
