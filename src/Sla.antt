-- ===== src/Sla.antt =====
-- internal/sla/sla.go: the report that is built from the metrics of a running syncctl. A sample is a whole
-- number of billionths, which for seconds are the nanoseconds of a `time.Duration`.
pub mod Peak
use syncctl.Base.{
  ℕ, suc, ◌+◌, ◌*◌, ◌/◌, Bool, true, false, ◌||◌, Option, none, some, List, [], ◌∷◌, ◌++◌, any,
  length, ◌==◌, Text, codes, is_empty, text_eq, if◌then◌else◌,
}
use syncctl.Base.Int.{ℤ, pos, negsuc, ◌-ℤ◌, ltb_ℤ}
use syncctl.Base.Strings.{has_prefix}
use syncctl.Config.Types.{Duration}

-- A metric of a family: its gauge and its counter, if it has one, and its labels.
pub record Metric : Type 0 where
  pub gauge : Option ℤ
  pub counter : Option ℤ
  pub labels : List (Text × Text)

pub record Family : Type 0 where
  pub name : Text
  pub metrics : List Metric

-- `Report`, with the set of components instead of its size
pub record SlaReport : Type 0 where
  pub pg_lag_current : Duration
  pub pg_lag_peak : Duration
  pub last_sweep_age : Duration
  pub drift_count : ℤ
  pub components_healthy : ℕ
  pub components : List Text

-- `componentSet[name] = true`
unfoldable pub set_component : Text → List Text → List Text
unfolding text_eq
set_component name set = if any (text_eq name) set then set else set ++ name ∷ []

abbrev larger : Duration → Duration → Duration
larger v old = if ltb_ℤ old v then v else old

-- A round for a lag.
unfoldable pub add_lag : Option ℤ → SlaReport → SlaReport
add_lag none r = r
add_lag (some v) r =
    let lag = larger v r.pg_lag_current in
    record r {
      pg_lag_current = lag;
      pg_lag_peak = lag;
      components_healthy =
          if ltb_ℤ v (pos 0) then r.components_healthy else suc r.components_healthy;
    }

abbrev pub billion : ℕ
billion = 1000000000

-- `int64(v)`
abbrev pub truncated : ℤ → ℤ
truncated (pos n) = pos (n / billion)
truncated (negsuc n) = pos 0 -ℤ pos (suc n / billion)

abbrev plus : ℤ → ℤ → ℤ
plus a b = a -ℤ (pos 0 -ℤ b)

unfoldable pub add_components : List (Text × Text) → List Text → List Text
unfolding set_component text_eq
add_components [] set = set
add_components ((name, value) ∷ labels) set =
    let added = add_components labels (set_component value set) in
    let skipped = add_components labels set in
    if text_eq name (codes "component") then added else skipped

-- A round for a counter of drifts.
unfoldable pub add_drift : Option ℤ → List (Text × Text) → SlaReport → SlaReport
unfolding add_components
add_drift none labels r = r
add_drift (some v) labels r = record r {
  drift_count = plus r.drift_count (truncated v);
  components = add_components labels r.components;
}

-- A round for a timestamp, by the time that it is.
unfoldable pub add_sync : ℤ → Option ℤ → SlaReport → SlaReport
unfolding set_component
add_sync now none r = r
add_sync now (some (negsuc n)) r = r
add_sync now (some (pos n)) r =
    let age = now -ℤ pos (n / billion * billion) in
    if n == 0 then r else record r {
      components = set_component (codes "last_sync") r.components;
      last_sweep_age = larger age r.last_sweep_age;
    }

-- What a metric of a family adds.
unfoldable pub add_metric : ℤ → Text → Metric → SlaReport → SlaReport
unfolding add_lag add_drift add_sync text_eq
add_metric now name m r =
    if text_eq name (codes "syncctl_pg_replay_lag_seconds")
    then add_lag m.gauge r
    else if text_eq name (codes "syncctl_drift_total")
    then add_drift m.counter m.labels r
    else if text_eq name (codes "syncctl_last_sync_timestamp_seconds")
    then add_sync now m.gauge r
    else r

module _ (now : ℤ) where
  unfoldable pub add_metrics : Text → List Metric → SlaReport → SlaReport
  unfolding add_metric
  add_metrics name [] r = r
  add_metrics name (m ∷ ms) r = add_metrics name ms (add_metric now name m r)

  -- The loop, in the order in which the map is visited.
  unfoldable pub add_families : List Family → SlaReport → SlaReport
  unfolding add_metrics
  add_families [] r = r
  add_families (f ∷ fs) r = add_families fs (add_metrics f.name f.metrics r)

abbrev pub no_report : SlaReport
no_report = record {
  pg_lag_current = pos 0;
  pg_lag_peak = pos 0;
  last_sweep_age = pos 0;
  drift_count = pos 0;
  components_healthy = 0;
  components = [];
}

-- `buildReport`
unfoldable pub build_report : ℤ → List Family → SlaReport
unfolding add_families
build_report now fs = add_families now fs no_report

-- `ComponentsTotal`
abbrev pub components_total : SlaReport → ℕ
components_total r = if length r.components == 0 then 1 else length r.components

-- `DefaultMetricsURL`
abbrev with_host : Text → Text
with_host addr = if has_prefix addr (codes ":") then codes "127.0.0.1" ++ addr else addr

unfoldable pub default_metrics_url : Text → Text
unfolding has_prefix
default_metrics_url addr =
    let given = if is_empty addr then codes "127.0.0.1:9101" else addr in
    codes "http://" ++ (with_host given ++ codes "/metrics")
