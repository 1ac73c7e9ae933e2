-- ===== src/Failover/Monitor.antt =====
-- internal/failover/failover.go: the loop of health checks in `Run`, one round at a time.
use syncctl.Base.{ℕ, zero, suc, ◌+◌, true, false, leb, Text, [], if◌then◌else◌}
use syncctl.Base.Result.{Result, ok, err}
use syncctl.Effects.{World, Log}
use syncctl.Failover.Health.{count_failures, reaches}
use syncctl.Failover.Promotion.{promote}
use syncctl.Failover.Targets.{auto_failover_target}
use syncctl.Failover.{Controller, State, FailoverError}

module _ (w : World) (c : Controller) where
  -- A target that cannot be determined ends the round, and an error of the promotion is logged.
  unfoldable pub auto_promote : Result FailoverError Text → State → State
  auto_promote (err e) s = s
  auto_promote (ok target) s = (promote w c target s).1

  unfoldable pub declare_down : State → State
  unfolding auto_promote auto_failover_target
  declare_down s = if c.auto_failover then auto_promote (auto_failover_target c.cfg) s else s

  unfoldable pub failed_check : State → State
  unfolding declare_down
  failed_check s =
      if leb 3 s.consecutive_fails then declare_down (record s { primary_down = true }) else s

  unfoldable pub after_poll : State → ℕ × Log → State
  unfolding failed_check
  after_poll s (fails, l) =
      if reaches w fails c.quorum
      then failed_check (record s { consecutive_fails = s.consecutive_fails + 1; log = l })
      else record s { consecutive_fails = 0; primary_down = false; log = l }

  -- `check`. The counter grows by one a round and cannot reach the bound of an `int64`.
  unfoldable pub check : State → State
  unfolding after_poll count_failures
  check s = after_poll s (count_failures w c.health_urls s.log)

  -- The rounds of `Run`, one for each tick until the context is cancelled.
  unfoldable pub run_checks : ℕ → State → State
  unfolding check
  run_checks zero s = s
  run_checks (suc n) s = check (run_checks n s)

-- The state that `New` begins with.
abbrev pub start : State
start = record { primary_down = false; consecutive_fails = 0; log = [] }
