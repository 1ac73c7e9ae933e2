-- ===== src/Tests/Postgres.antt =====
-- The pools and the lag of postgres/reconciler.go at two sites.
use syncctl.Base.{ℕ, true, false, List, [], ◌∷◌, ◌≡◌, refl, Text, codes}
use syncctl.Base.Int.{pos}
use syncctl.Base.Result.{Result, ok, err}
use syncctl.Config.Dsn.{dsn}
use syncctl.Postgres.Pools.{Pools, Factory, new_with_factory}
use syncctl.Postgres.Balanced.{Balanced, new_with_factory-Balanced}
use syncctl.Postgres.Lag.{
  recovering, LagRow, no_lag_row, lag_of, lag_note, lag_error, reconcile_lag,
}
use syncctl.Tests.Failover.{two_sites}

abbrev none_open : Pools
none_open = record { opened = []; closed = [] }

-- The second connection is refused.
abbrev refuses_second : Factory
refuses_second s dsn = one_at_most s.opened
  where
    one_at_most : List ℕ → Result Text ℕ
    one_at_most [] = ok 1
    one_at_most (p ∷ ps) = err (codes "refused")

built :
    (new_with_factory refuses_second (two_sites true) none_open).1
    ≡ record { opened = 1 ∷ []; closed = 1 ∷ [] }
unfolding new_with_factory
built = refl

new_with_factory-Balanced_example :
    Balanced
      (two_sites true).secondaries
      none_open
      (new_with_factory refuses_second (two_sites true) none_open)
new_with_factory-Balanced_example =
    new_with_factory-Balanced refuses_second (two_sites true) none_open

-- The first secondary lags by two seconds, the second is not followed.
abbrev rows : Text → LagRow
rows [] = no_lag_row
rows (c ∷ name) = lag_of (pos 2000000000)

one_lags : reconcile_lag (λ name. recovering true) rows (codes "a" ∷ [] ∷ []) ≡ record {
  in_sync = false;
  lag = pos 2000000000;
  remaining = 1;
  details = lag_note (codes "a") (pos 2000000000) ∷ lag_error [] ∷ [];
}
unfolding reconcile_lag
one_lags = refl
