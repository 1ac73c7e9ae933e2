-- ===== src/Doctor/HostReady.antt =====
-- doctor/doctor.go: what the checks of a host, and of the object storage, say if they pass.
use syncctl.Base.{
  false, Option, none, some, ◌≡◌, ◌≢◌, ◌++◌, ◌∷◌, [], Text, codes, is_empty, text_eq_iff,
  Bool-cases, inl, inr,
}
use syncctl.Base.Result.{ok}
use syncctl.Config.Types.{S3Config, ObjectStoreConfig}
use syncctl.Shell.{quote}
use syncctl.Effects.{Log, World, Runner}
use syncctl.Doctor.{pass}
use syncctl.Doctor.Database.{Database}
use syncctl.Doctor.Hosts.{
  key_count, db_key_present_cmd, ssh_check, db_key_present_check, remote_binary_check, rsync_check,
  git_check, path_exists_check, s3_bucket_check,
}
use syncctl.Doctor.Report.{primary_label, s3_part, storage_part}
use syncctl.Doctor.Passing.{
  AllPass, pure-Passed, set-ne, ssh_of-pass, binary_of-pass, path_of-pass, key_present_of-pass,
}

module _ (runner : Runner) where
  -- A host at which a command succeeded.
  pub record Answers (host cmd : Text) : Type 0 where
    pub asked : Log
    pub behind : Log
    pub out : Text
    pub answer : runner host cmd asked ≡ (ok out, behind)

  -- A host that answers over SSH, counts a key, and has rsync and git.
  pub record HostReady (host : Text) : Type 0 where
    pub reached : host ≢ []
    pub ssh : Answers host (codes "echo ok")
    pub key : Answers host db_key_present_cmd
    pub key_there : key_count key.out ≢ codes "0"
    pub rsync : Answers host (codes "rsync --version")
    pub git : Answers host (codes "git --version")

  module _ (w : World) where
    pub ssh_check-Answers :
        (label host : Text) (l : Log)
        → (ssh_check w runner label host l).0.status ≡ pass
        → (is_empty host ≡ false) × Answers host (codes "echo ok")
    unfolding ssh_check
    ssh_check-Answers label host l h = elim (Bool-cases (is_empty host)) [
      | inl missing ↦ let h' = rw missing at h in cc
      | inr given ↦
          let (out, l', e) =
            ssh_of-pass label host (runner host (codes "echo ok") l) (rw given at h) in
          (given, record { asked = l; behind = l'; out = out; answer = e })
    ]

    pub db_key_present_check-Answers :
        (label host : Text) (l : Log)
        → (db_key_present_check w runner label host l).0.status ≡ pass
        → (a : Answers host db_key_present_cmd) × (key_count a.out ≢ codes "0")
    unfolding db_key_present_check
    db_key_present_check-Answers label host l h = elim (Bool-cases (is_empty host)) [
      | inl missing ↦ let h' = rw missing at h in cc
      | inr given ↦
          let (out, l', e, there) =
            key_present_of-pass label (runner host db_key_present_cmd l) (rw given at h) in
          (record { asked = l; behind = l'; out = out; answer = e }, there)
    ]

    remote_binary_check-Answers :
        (label bin host cmd : Text) (l : Log)
        → (remote_binary_check w runner label bin host cmd l).0.status ≡ pass
        → Answers host cmd
    unfolding remote_binary_check
    remote_binary_check-Answers label bin host cmd l h = elim (Bool-cases (is_empty host)) [
      | inl missing ↦ let h' = rw missing at h in cc
      | inr given ↦
          let (out, l', e) =
            binary_of-pass (bin ++ (b':' ∷ label)) bin (runner host cmd l) (rw given at h) in
          record { asked = l; behind = l'; out = out; answer = e }
    ]

    pub rsync_check-Answers :
        (label host : Text) (l : Log)
        → (rsync_check w runner label host l).0.status ≡ pass
        → Answers host (codes "rsync --version")
    unfolding rsync_check
    rsync_check-Answers label host l h =
        remote_binary_check-Answers label (codes "rsync") host (codes "rsync --version") l h

    pub git_check-Answers :
        (label host : Text) (l : Log)
        → (git_check w runner label host l).0.status ≡ pass
        → Answers host (codes "git --version")
    unfolding git_check
    git_check-Answers label host l h =
        remote_binary_check-Answers label (codes "git") host (codes "git --version") l h

    pub path_exists_check-Answers :
        (label host path name : Text) (l : Log)
        → (path_exists_check w runner label host path name l).0.status ≡ pass
        → Answers host (codes "test -d " ++ quote path)
    unfolding path_exists_check
    path_exists_check-Answers label host path name l h = elim (Bool-cases (is_empty host)) [
      | inl missing ↦ let h' = rw missing at h in cc
      | inr given ↦
          let (out, l', e) =
            path_of-pass (codes "path:" ++ (label ++ (b':' ∷ name))) path
              (runner host (codes "test -d " ++ quote path) l) (rw given at h) in
          record { asked = l; behind = l'; out = out; answer = e }
    ]

-- The buckets and the keys of the object storage are given.
pub record StorageReady (s3 : S3Config) : Type 0 where
  pub primary_bucket : s3.primary_bucket ≢ []
  pub replica_bucket : s3.replica_bucket ≢ []
  pub access_key : s3.access_key ≢ []
  pub secret_key : s3.secret_key ≢ []

s3_bucket_check-Ready :
    (label : Text) (s3 : S3Config) → (s3_bucket_check label s3).status ≡ pass → StorageReady s3
unfolding s3_bucket_check
s3_bucket_check-Ready label s3 h = elim (Bool-cases (is_empty s3.primary_bucket)) [
  | inl e ↦ let h' = rw e at h in cc
  | inr a ↦ elim (Bool-cases (is_empty s3.replica_bucket)) [
    | inl e ↦ let h' = rw (a, e) at h in cc
    | inr b ↦ elim (Bool-cases (is_empty s3.access_key)) [
      | inl e ↦ let h' = rw (a, b, e) at h in cc
      | inr c ↦ elim (Bool-cases (is_empty s3.secret_key)) [
        | inl e ↦ let h' = rw (a, b, c, e) at h in cc
        | inr d ↦ record {
          primary_bucket = set-ne s3.primary_bucket a;
          replica_bucket = set-ne s3.replica_bucket b;
          access_key = set-ne s3.access_key c;
          secret_key = set-ne s3.secret_key d;
        }
      ]
    ]
  ]
]

s3_part-Ready :
    (w : World) (runner : Runner) (db : Database) (o : Option S3Config) (l : Log) (s3 : S3Config)
    → o ≡ some s3
    → AllPass (s3_part w runner db o) l
    → StorageReady s3
s3_part-Ready w runner db none l s3 e h = cc
s3_part-Ready w runner db (some q) l s3 e h =
    let same : q ≡ s3 = cc in
    rw (← same) (s3_bucket_check-Ready primary_label q (pure-Passed _ l h))

pub storage_part-Ready :
    (w : World) (runner : Runner) (db : Database) (store : ObjectStoreConfig) (l : Log)
    (s3 : S3Config)
    → store.backend ≡ codes "s3"
    → store.s3 ≡ some s3
    → AllPass (storage_part w runner db store) l
    → StorageReady s3
unfolding storage_part
storage_part-Ready w runner db store l s3 kind e h =
    let by_kind = (text_eq_iff store.backend (codes "s3")).1 kind in
    s3_part-Ready w runner db store.s3 l s3 e (rw by_kind at h)
