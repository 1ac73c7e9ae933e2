-- ===== src/Config/Paths.antt =====
-- internal/config/config.go: `validatePaths`, whose findings are only logged.
use syncctl.Base.{
  append-none, ℕ, suc, true, false, not, Option, none, some, List, [], ◌∷◌, ◌++◌, All, ◌≡◌, ◌↔◌,
  refl, arith, Text, codes, is_empty, if◌then◌else◌,
}
use syncctl.Base.Strings.{contains_any, has_prefix}
use syncctl.Config.Types.{Config, SiteConfig, RegistryConfig}
use syncctl.Config.Validate.{Label, at_primary, at_secondary}

pub data PathKind : Type 0 where
  repos_path registry_fs_path : PathKind
  storage_path : ℕ → PathKind

pub data PathIssue : Type 0 where
  control_byte : Label → PathKind → PathIssue
  not_absolute : Label → PathKind → Text → PathIssue

-- NUL and the two line ends
abbrev line_bytes : Text
line_bytes = 0 ∷ 0x0a ∷ 0x0d ∷ []

path_issues : Label → PathKind → Text → List PathIssue
unfolding contains_any has_prefix
path_issues label kind path =
    if is_empty path
    then []
    else if contains_any path line_bytes
    then control_byte label kind ∷ []
    else if not (has_prefix path (codes "/"))
    then not_absolute label kind path ∷ []
    else []

storage_issues : Label → ℕ → List Text → List PathIssue
unfolding path_issues
storage_issues label i [] = []
storage_issues label i (p ∷ paths) =
    path_issues label (storage_path i) p ++ storage_issues label (suc i) paths

registry_issues : Label → Option RegistryConfig → List PathIssue
unfolding path_issues
registry_issues label none = []
registry_issues label (some r) = path_issues label registry_fs_path r.fs_path

site_issues : Label → SiteConfig → List PathIssue
unfolding path_issues storage_issues registry_issues
site_issues label s =
    path_issues label repos_path s.git.repos_path
    ++ (storage_issues label 0 s.object_store.fs_paths ++ registry_issues label s.registry)

secondary_issues : ℕ → List SiteConfig → List PathIssue
unfolding site_issues
secondary_issues i [] = []
secondary_issues i (s ∷ sites) = site_issues (at_secondary i) s ++ secondary_issues (suc i) sites

-- `validatePaths`
unfoldable pub validate_paths : Config → List PathIssue
unfolding site_issues secondary_issues
validate_paths c = site_issues at_primary c.primary ++ secondary_issues 0 c.secondaries

-- A path that is left out, or is absolute and stays on one line.
pub data IsPath (path : Text) : Type 0 where
  no_path : path ≡ [] → IsPath path
  absolute : contains_any path line_bytes ≡ false → has_prefix path (codes "/") ≡ true → IsPath path

-- The paths of a site that reach rsync and remote command lines; those of the TLS files are not looked
-- at.
pub record HasPaths (s : SiteConfig) : Type 0 where
  pub repos : IsPath s.git.repos_path
  pub storage : All IsPath s.object_store.fs_paths
  pub registry : (r : RegistryConfig) → s.registry ≡ some r → IsPath r.fs_path

path_issues-IsPath :
    (label : Label) (kind : PathKind) (path : Text) → path_issues label kind path ≡ [] → IsPath path
unfolding path_issues
path_issues-IsPath label kind [] h = no_path refl
path_issues-IsPath label kind (c ∷ path) h = absolute (ground arith) (ground arith)

storage_issues-IsPath :
    (label : Label) (i : ℕ) (paths : List Text)
    → storage_issues label i paths ≡ []
    → All IsPath paths
unfolding storage_issues
storage_issues-IsPath label i [] h = tt
storage_issues-IsPath label i (p ∷ paths) h =
    let (a, b) = append-none (path_issues label (storage_path i) p) _ h in
    (path_issues-IsPath label (storage_path i) p a, storage_issues-IsPath label (suc i) paths b)

registry_issues-IsPath :
    (label : Label) (o : Option RegistryConfig)
    → registry_issues label o ≡ []
    → (r : RegistryConfig) → o ≡ some r
    → IsPath r.fs_path
unfolding registry_issues
registry_issues-IsPath label none h r is = cc
registry_issues-IsPath label (some q) h r is =
    let same : q ≡ r = cc in rw (← same) (path_issues-IsPath label registry_fs_path q.fs_path h)

site_issues-HasPaths : (label : Label) (s : SiteConfig) → site_issues label s ≡ [] → HasPaths s
unfolding site_issues
site_issues-HasPaths label s h =
    let (a, rest) = append-none (path_issues label repos_path s.git.repos_path) _ h in
    let (b, c) = append-none (storage_issues label 0 s.object_store.fs_paths) _ rest in
    record {
      repos = path_issues-IsPath label repos_path s.git.repos_path a;
      storage = storage_issues-IsPath label 0 s.object_store.fs_paths b;
      registry = registry_issues-IsPath label s.registry c;
    }

secondary_issues-HasPaths :
    (i : ℕ) (sites : List SiteConfig) → secondary_issues i sites ≡ [] → All HasPaths sites
unfolding secondary_issues
secondary_issues-HasPaths i [] h = tt
secondary_issues-HasPaths i (s ∷ sites) h =
    let (a, b) = append-none (site_issues (at_secondary i) s) _ h in
    (site_issues-HasPaths (at_secondary i) s a, secondary_issues-HasPaths (suc i) sites b)

IsPath-silent :
    (label : Label) (kind : PathKind) (path : Text) → IsPath path → path_issues label kind path ≡ []
unfolding path_issues
IsPath-silent label kind path (no_path e) = rw e refl
IsPath-silent label kind [] (absolute line rooted) = refl
IsPath-silent label kind (c ∷ path) (absolute line rooted) = ground (arith, line, rooted)

storage-silent :
    (label : Label) (i : ℕ) (paths : List Text)
    → All IsPath paths
    → storage_issues label i paths ≡ []
unfolding storage_issues
storage-silent label i [] h = refl
storage-silent label i (p ∷ paths) h =
    rw (IsPath-silent label (storage_path i) p h.0) (storage-silent label (suc i) paths h.1)

registry-silent :
    (label : Label) (o : Option RegistryConfig)
    → ((r : RegistryConfig) → o ≡ some r → IsPath r.fs_path)
    → registry_issues label o ≡ []
unfolding registry_issues
registry-silent label none h = refl
registry-silent label (some r) h = IsPath-silent label registry_fs_path r.fs_path (h r refl)

site-silent : (label : Label) (s : SiteConfig) → HasPaths s → site_issues label s ≡ []
unfolding site_issues
site-silent label s h =
    rw
      (
        IsPath-silent label repos_path s.git.repos_path h.repos,
        storage-silent label 0 s.object_store.fs_paths h.storage,
      )
      (registry-silent label s.registry h.registry)

secondary-silent :
    (i : ℕ) (sites : List SiteConfig) → All HasPaths sites → secondary_issues i sites ≡ []
unfolding secondary_issues
secondary-silent i [] h = refl
secondary-silent i (s ∷ sites) h =
    rw (site-silent (at_secondary i) s h.0) (secondary-silent (suc i) sites h.1)

-- `validatePaths` has nothing to say exactly where, at every site, the path of the repositories, each
-- path of the object storage and the path of the registry are left out, or absolute and without a
-- NUL or a line end.
pub validate_paths-HasPaths :
    (c : Config) → (validate_paths c ≡ []) ↔ (HasPaths c.primary × All HasPaths c.secondaries)
unfolding validate_paths
validate_paths-HasPaths c = (
  λ h.
      let (a, b) = append-none (site_issues at_primary c.primary) _ h in
      (site_issues-HasPaths at_primary c.primary a, secondary_issues-HasPaths 0 c.secondaries b),
  λ h. rw (site-silent at_primary c.primary h.0) (secondary-silent 0 c.secondaries h.1),
)
