-- ===== src/Tests/Gitfetch.antt =====
-- The theorems about repositories on disk and their fetches at two sites.
use syncctl.Base.{true, false, List, [], ◌∷◌, ◌++◌, ◌≡◌, ◌≢◌, refl, sym, ◌∙◌, Text, codes, text_eq}
use syncctl.Base.Int.{pos}
use syncctl.Base.Result.{ok, err}
use syncctl.Base.Strings.{split, contains_any, cut_last, count_byte}
use syncctl.Ssh.{host_char}
use syncctl.ProjectPath.Safe.{walk}
use syncctl.Base.FilePaths.{clean, rendered}
use syncctl.Gitfetch.Paths.{contained_join, repo_disk_path}
use syncctl.Gitfetch.Resolve.{IsRooted, resolve}
use syncctl.Gitfetch.Contained.{IsBelow, contained_join-IsBelow}
use syncctl.Gitfetch.Layout.{IsDigest, contained_join-repo_disk_path}
use syncctl.Gitfetch.Fetch.{Fetcher, ProjectRow, GitWorld, reconcile_listed}

abbrev root : Text
root = codes "/srv/git"

cleaned :
    (clean (codes "/a//b/./../c/") ≡ codes "/a/c")
    × (clean (codes "../../a/..") ≡ codes "../..")
    × (clean [] ≡ codes ".")
unfolding clean
cleaned = (refl, refl, refl)

escaping :
    contained_join root (codes "../../etc")
    ≡ err (record { path = codes "../../etc"; resolved = codes "/etc"; root = root })
unfolding contained_join
escaping = refl

-- A relative root does not contain: a path above it is taken for one below it.
relative_root : contained_join (codes "..") (codes "../x") ≡ ok (codes "../../x")
unfolding contained_join
relative_root = refl

root-IsRooted : IsRooted root
unfolding contained_join
root-IsRooted = refl

below : contained_join root (codes "g/../p.git") ≡ ok (codes "/srv/git/p.git")
unfolding contained_join
below = refl

contained_join-IsBelow_example : IsBelow root (codes "g/../p.git") (codes "/srv/git/p.git")
contained_join-IsBelow_example =
    contained_join-IsBelow root (codes "g/../p.git") (codes "/srv/git/p.git") root-IsRooted below

abbrev zeros : Text → Text
zeros t = codes "0000000000000000000000000000000000000000000000000000000000000000"

zeros-IsDigest : (t : Text) → IsDigest (zeros t)
zeros-IsDigest t = record { digits = refl; size = refl }

root_names : resolve root ≡ codes "srv" ∷ codes "git" ∷ []
unfolding walk split text_eq
root_names = refl

root-named : resolve root ≢ []
root-named e = let e' = sym root_names ∙ e in cc

group_path : repo_disk_path zeros false (codes "g/p") (pos 7) ≡ ok (codes "g/p.git")
unfolding repo_disk_path
group_path = refl

contained_join-repo_disk_path_example :
    contained_join root (codes "g/p.git")
    ≡ ok (rendered true (resolve root ++ split (codes "g/p.git") b'/'))
contained_join-repo_disk_path_example =
    contained_join-repo_disk_path zeros zeros-IsDigest root false (codes "g/p") (pos 7)
      (codes "g/p.git") root-IsRooted root-named group_path

abbrev site : Fetcher
site = record {
  primary_ssh_host = codes "git@primary";
  repos_path = root;
  ssh = record { known_hosts_file = []; strict_host_key_checking = [] };
  dry_run = false;
  max_parallel = pos 8;
}

-- The first command succeeds and those behind it fail.
abbrev failing : GitWorld
failing = record {
  fails = λ log c. elim log [ [] ↦ false | _ ∷ _ ↦ true ];
  cancelled = λ log. false;
}

abbrev two : List ProjectRow
two =
    record { id = pos 1; repo_path = codes "g/p.git" }
    ∷ record { id = pos 2; repo_path = codes "g/q.git" }
    ∷ []

half : (reconcile_listed site failing (ok two) []).0.repaired ≡ 1
unfolding reconcile_listed contains_any cut_last count_byte host_char
half = refl
