-- ===== src/Sla/Peak.antt =====
-- sla.go, `buildReport`: the two lags of a report.
use syncctl.Base.{Option, none, some, List, [], ◌∷◌, Text, ◌≡◌, refl, if_both, ◌==◌}
use syncctl.Base.Int.{ℤ, pos, negsuc}
use syncctl.Sla.{
  Metric, Family, SlaReport, add_lag, add_drift, add_sync, add_metric, add_metrics, add_families,
  build_report,
}

abbrev IsFlat : SlaReport → Type 0
IsFlat r = r.pg_lag_peak ≡ r.pg_lag_current

add_lag-IsFlat : (v : Option ℤ) (r : SlaReport) → IsFlat r → IsFlat (add_lag v r)
unfolding add_lag
add_lag-IsFlat none r h = h
add_lag-IsFlat (some v) r h = refl

add_drift-IsFlat :
    (v : Option ℤ) (labels : List (Text × Text)) (r : SlaReport)
    → IsFlat r
    → IsFlat (add_drift v labels r)
unfolding add_drift
add_drift-IsFlat none labels r h = h
add_drift-IsFlat (some v) labels r h = h

add_sync-IsFlat : (now : ℤ) (v : Option ℤ) (r : SlaReport) → IsFlat r → IsFlat (add_sync now v r)
unfolding add_sync
add_sync-IsFlat now none r h = h
add_sync-IsFlat now (some (negsuc n)) r h = h
add_sync-IsFlat now (some (pos n)) r h = if_both IsFlat (n == 0) h h

module _ (now : ℤ) where
  add_metric-IsFlat :
      (name : Text) (m : Metric) (r : SlaReport) → IsFlat r → IsFlat (add_metric now name m r)
  unfolding add_metric
  add_metric-IsFlat name m r h = if_both IsFlat _ (add_lag-IsFlat m.gauge r h) (
      if_both IsFlat _ (add_drift-IsFlat m.counter m.labels r h)
        (if_both IsFlat _ (add_sync-IsFlat now m.gauge r h) h))

  add_metrics-IsFlat :
      (name : Text) (ms : List Metric) (r : SlaReport)
      → IsFlat r
      → IsFlat (add_metrics now name ms r)
  unfolding add_metrics
  add_metrics-IsFlat name [] r h = h
  add_metrics-IsFlat name (m ∷ ms) r h =
      add_metrics-IsFlat name ms (add_metric now name m r) (add_metric-IsFlat name m r h)

  add_families-IsFlat :
      (fs : List Family) (r : SlaReport) → IsFlat r → IsFlat (add_families now fs r)
  unfolding add_families
  add_families-IsFlat [] r h = h
  add_families-IsFlat (f ∷ fs) r h =
      add_families-IsFlat fs (add_metrics now f.name f.metrics r)
        (add_metrics-IsFlat f.name f.metrics r h)

  -- Whatever the metrics are, the peak of the lag is its current value.
  pub build_report-IsFlat : (fs : List Family) → IsFlat (build_report now fs)
  unfolding build_report
  build_report-IsFlat fs = add_families-IsFlat fs _ refl
