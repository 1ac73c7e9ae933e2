-- ===== src/Tests/Sla.antt =====
-- sla.go at two secondaries that are followed and no other metric.
use syncctl.Base.{none, some, [], ◌∷◌, ◌≡◌, refl, codes}
use syncctl.Base.Int.{pos, negsuc}
use syncctl.Sla.{Family, build_report, components_total, default_metrics_url}

abbrev two_lags : Family
two_lags = record {
  name = codes "syncctl_pg_replay_lag_seconds";
  metrics =
      record { gauge = some (pos 5); counter = none; labels = [] }
      ∷ record { gauge = some (pos 9); counter = none; labels = [] }
      ∷ record { gauge = some (negsuc 999999999); counter = none; labels = [] }
      ∷ [];
}

two_of_one :
    ((build_report (pos 0) (two_lags ∷ [])).components_healthy ≡ 2)
    × (components_total (build_report (pos 0) (two_lags ∷ [])) ≡ 1)
    × ((build_report (pos 0) (two_lags ∷ [])).pg_lag_current ≡ pos 9)
unfolding build_report
two_of_one = (refl, refl, refl)

default_url : default_metrics_url (codes ":9") ≡ codes "http://127.0.0.1:9/metrics"
unfolding default_metrics_url
default_url = refl
