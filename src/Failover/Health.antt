-- ===== src/Failover/Health.antt =====
-- internal/failover/failover.go: polling the health URLs, and the gate on the primary being down.
use syncctl.Base.{ℕ, suc, Bool, true, not, List, [], ◌∷◌, ◌++◌, Text, if◌then◌else◌}
use syncctl.Base.Result.{Result, ok, err}
use syncctl.Base.Int.{ℤ, pos, ltb_ℤ}
use syncctl.Effects.{World, Log, poll}
use syncctl.Failover.{Controller, State, FailoverError, primary_answers, Act}

module _ (w : World) where
  -- `countHealthFailures`: every URL is polled, in order.
  unfoldable pub count_failures : List Text → Log → ℕ × Log
  count_failures [] l = (0, l)
  count_failures (url ∷ urls) l =
      let (n, l') = count_failures urls (l ++ poll url ∷ []) in
      (if w.healthy l url then n else suc n, l')

  -- `fails >= c.quorum`
  abbrev pub reaches : ℕ → ℤ → Bool
  reaches fails quorum = not (ltb_ℤ (pos fails) quorum)

  after_probe : Controller → State → ℕ × Log → Result FailoverError (Unit {0}) × State
  after_probe c s (fails, l) =
      if reaches fails c.quorum
      then (ok tt, record s { primary_down = true; log = l })
      else (err primary_answers, record s { log = l })

  -- `verifyPrimaryDown`
  unfoldable pub verify_primary_down : Controller → Act (Unit {0})
  unfolding after_probe count_failures
  verify_primary_down c s =
      if c.force
      then (ok tt, s)
      else if s.primary_down
      then (ok tt, s)
      else after_probe c s (count_failures c.health_urls s.log)
