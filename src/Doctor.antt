-- ===== src/Doctor.antt =====
-- internal/doctor/doctor.go: the checks before a replication. Of the errors that come from outside the
-- text is not rendered.
pub mod Database
pub mod Hosts
pub mod Report
pub mod Passing
pub mod HostReady
pub mod Ready
use syncctl.Base.{Text, codes, ◌++◌, ◌∷◌}

pub data Status : Type 0 where
  pass fail warn : Status

-- `Check`
pub record Check : Type 0 where
  pub name : Text
  pub category : Text
  pub status : Status
  pub detail : Text
