-- ===== src/Doctor/Passing.antt =====
-- doctor/doctor.go: what a check that passes says of the answer that it judged.
use syncctl.Base.{
  ◌≤◌, true, false, List, [], ◌∷◌, ◌++◌, All, ◌≡◌, ◌≢◌, refl, arith, Text, codes, is_empty,
  text_eq_iff,
}
use syncctl.Base.Result.{Result, ok, err}
use syncctl.Effects.{Log}
use syncctl.Dbkey.{CheckError}
use syncctl.Doctor.{Status, pass, fail, warn, Check}
use syncctl.Doctor.Database.{
  Answer, text_row, bool_row, connect_failed, query_failed, control_of, role_of, enough_wal,
  wal_level_of, wal_senders_of, in_recovery_of,
}
use syncctl.Doctor.Hosts.{Outcome, parity_of, ssh_of, key_count, key_present_of, binary_of, path_of}
use syncctl.Doctor.Report.{Part, one, pure, ◌>then>◌, Report, count_status, tally}

unfoldable pub Passed : Check → Type 0
Passed c = c.status ≡ pass

pub count_status-grows :
    (st : Status) (r : Report)
    → (r.failed ≤ (count_status st r).failed) × (r.warned ≤ (count_status st r).warned)
count_status-grows pass r = (omega arith, omega arith)
count_status-grows fail r = (omega arith, omega arith)
count_status-grows warn r = (omega arith, omega arith)

pub count_status-pass :
    (st : Status) (r : Report)
    → (count_status st r).failed ≤ 0
    → (count_status st r).warned ≤ 0
    → st ≡ pass
count_status-pass pass r f w = refl
count_status-pass fail r f w = absurd (omega arith)
count_status-pass warn r f w = absurd (omega arith)

pub tally-grows :
    (cs : List Check) (r : Report)
    → (r.failed ≤ (tally cs r).failed) × (r.warned ≤ (tally cs r).warned)
unfolding tally
tally-grows [] r = (omega arith, omega arith)
tally-grows (c ∷ cs) r =
    let (f, w) = tally-grows cs (count_status c.status r) in
    let (f', w') = count_status-grows c.status r in (omega arith, omega arith)

pub tally-Passed :
    (cs : List Check) (r : Report)
    → (tally cs r).failed ≡ 0
    → (tally cs r).warned ≡ 0
    → All Passed cs
unfolding tally Passed
tally-Passed [] r f w = tt
tally-Passed (c ∷ cs) r f w =
    let (more, more') = tally-grows cs (count_status c.status r) in
    (
      count_status-pass c.status r (omega arith) (omega arith),
      tally-Passed cs (count_status c.status r) f w,
    )

-- All checks of a part pass.
unfoldable pub AllPass : Part → Log → Type 0
AllPass m l = All Passed (m l).0

pub All-split {ℓ κ} :
    {A : Type ℓ} (P : A → Type κ) (xs ys : List A) → All P (xs ++ ys) → All P xs × All P ys
All-split P [] ys h = (tt, h)
All-split P (x ∷ xs) ys h = let (a, b) = All-split P xs ys h.1 in ((h.0, a), b)

pub then-AllPass : (m k : Part) (l : Log) → AllPass (m >then> k) l → AllPass m l × AllPass k (m l).1
unfolding AllPass ◌>then>◌
then-AllPass m k l h = All-split Passed (m l).0 (k (m l).1).0 h

pub one-Passed : (m : Log → Check × Log) (l : Log) → AllPass (one m) l → (m l).0.status ≡ pass
unfolding AllPass Passed
one-Passed m l h = h.0

pub pure-Passed : (c : Check) (l : Log) → AllPass (pure c) l → c.status ≡ pass
unfolding AllPass Passed
pure-Passed c l h = h.0

-- What a passing check says of the answer it judged.
pub control_of-pass :
    (label : Text) (a : Answer) → (control_of label a).status ≡ pass → (v : Text) × (a ≡ text_row v)
unfolding control_of
control_of-pass label (text_row v) h = (v, refl)
control_of-pass label connect_failed h = cc
control_of-pass label query_failed h = cc
control_of-pass label (bool_row b) h = cc

pub role_of-pass :
    (label user : Text) (a : Answer) → (role_of label user a).status ≡ pass → a ≡ bool_row true
unfolding role_of
role_of-pass label user (bool_row true) h = refl
role_of-pass label user (bool_row false) h = cc
role_of-pass label user connect_failed h = cc
role_of-pass label user query_failed h = cc
role_of-pass label user (text_row t) h = cc

pub wal_level_of-pass :
    (label : Text) (a : Answer)
    → (wal_level_of label a).status ≡ pass
    → (t : Text) × (a ≡ text_row t) × (enough_wal t ≡ true)
unfolding wal_level_of
wal_level_of-pass label (text_row t) h = (t, refl, ground arith)
wal_level_of-pass label connect_failed h = cc
wal_level_of-pass label query_failed h = cc
wal_level_of-pass label (bool_row b) h = cc

pub wal_senders_of-pass :
    (label : Text) (a : Answer)
    → (wal_senders_of label a).status ≡ pass
    → (t : Text) × (a ≡ text_row t) × (t ≢ codes "0")
unfolding wal_senders_of
wal_senders_of-pass label (text_row t) h =
    (t, refl, λ e. let zero' = (text_eq_iff t (codes "0")).1 e in ground arith)
wal_senders_of-pass label connect_failed h = cc
wal_senders_of-pass label query_failed h = cc
wal_senders_of-pass label (bool_row b) h = cc

pub in_recovery_of-pass :
    (label : Text) (a : Answer) → (in_recovery_of label a).status ≡ pass → a ≡ bool_row true
unfolding in_recovery_of
in_recovery_of-pass label (bool_row true) h = refl
in_recovery_of-pass label (bool_row false) h = cc
in_recovery_of-pass label connect_failed h = cc
in_recovery_of-pass label query_failed h = cc
in_recovery_of-pass label (text_row t) h = cc

pub set-ne : (t : Text) → is_empty t ≡ false → t ≢ []
set-ne [] h e = cc
set-ne (c ∷ t) h e = cc

pub parity_of-pass :
    (name : Text) (r : Result CheckError (Unit {0}) × Log)
    → (parity_of name r).0.status ≡ pass
    → r.0 ≡ ok tt
unfolding parity_of
parity_of-pass name (ok _, l) h = refl
parity_of-pass name (err e, l) h = cc

-- The command of a check that passes succeeded.
pub ssh_of-pass :
    (label host : Text) (r : Outcome)
    → (ssh_of label host r).0.status ≡ pass
    → (out : Text) × (l : Log) × (r ≡ (ok out, l))
unfolding ssh_of
ssh_of-pass label host (ok out, l) h = (out, l, refl)
ssh_of-pass label host (err e, l) h = cc

pub binary_of-pass :
    (name bin : Text) (r : Outcome)
    → (binary_of name bin r).0.status ≡ pass
    → (out : Text) × (l : Log) × (r ≡ (ok out, l))
unfolding binary_of
binary_of-pass name bin (ok out, l) h = (out, l, refl)
binary_of-pass name bin (err e, l) h = cc

pub path_of-pass :
    (name path : Text) (r : Outcome)
    → (path_of name path r).0.status ≡ pass
    → (out : Text) × (l : Log) × (r ≡ (ok out, l))
unfolding path_of
path_of-pass name path (ok out, l) h = (out, l, refl)
path_of-pass name path (err e, l) h = cc

pub key_present_of-pass :
    (label : Text) (r : Outcome)
    → (key_present_of label r).0.status ≡ pass
    → (out : Text) × (l : Log) × (r ≡ (ok out, l)) × (key_count out ≢ codes "0")
unfolding key_present_of
key_present_of-pass label (ok out, l) h = (
  out,
  l,
  refl,
  λ e. let zero' = (text_eq_iff (key_count out) (codes "0")).1 e in let h' = rw zero' at h in cc,
)
key_present_of-pass label (err e, l) h = cc
