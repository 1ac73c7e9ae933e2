-- ===== src/Tests/Rsync.antt =====
-- fsstorage/reconciler.go at one path whose run cannot start `ssh`.
use syncctl.Base.{true, false, some, [], ◌∷◌, ◌≡◌, refl, codes}
use syncctl.Base.Strings.{contains_any, contains_byte, count_byte, cut, cut_last, has_prefix}
use syncctl.Ssh.{check_host, host_char}
use syncctl.Rsync.{RsyncWorld}
use syncctl.Rsync.Paths.{FsStorage, copied_all, reconcile_paths}
use syncctl.Rsync.Mirrored.{Mirrored, reconcile_paths-Mirrored}

abbrev without_ssh : RsyncWorld
without_ssh = record {
  fails = λ log args. some (codes "rsync: Failed to exec ssh: No such file or directory (2)");
  cancelled = λ log. false;
}

abbrev one_path : FsStorage
one_path = record {
  site = codes "b";
  ssh_host = codes "git@a";
  ssh = record { known_hosts_file = []; strict_host_key_checking = [] };
  path_pairs = record { src = codes "/srv/a"; dst = codes "/srv/a" } ∷ [];
  dry_run = false;
}

-- The path counts as one that the primary lacks, and the sweep is in sync.
nothing_copied :
    (reconcile_paths one_path without_ssh []).0
    ≡ record { in_sync = true; detail = copied_all 0 1; repaired = 0; remaining = 0 }
unfolding reconcile_paths check_host host_char contains_any contains_byte count_byte cut cut_last
    has_prefix
nothing_copied = refl

reconcile_paths-Mirrored_example :
    Mirrored one_path without_ssh [] (reconcile_paths one_path without_ssh [])
reconcile_paths-Mirrored_example = reconcile_paths-Mirrored one_path without_ssh []
