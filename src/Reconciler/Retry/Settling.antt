-- ===== src/Reconciler/Retry/Settling.antt =====
-- retry.go, `Retry`: its outcome, its calls and its delays.
use syncctl.Base.{
  ℕ, zero, suc, Bool, true, false, Option, none, some, All, ◌≡◌, refl, arith, inl, inr, Bool-cases,
}
use syncctl.Base.Int.{pos, ltb_ℤ, ◌≤ℤ◌}
use syncctl.Config.Types.{Duration}
use syncctl.Reconciler.Retry.{
  Outcome, succeeded, failed, cancelled, Run, double, next_delay, settle, attempts, retry,
}

-- No delay is longer than the bound.
next_delay-le : (max_delay d : Duration) → next_delay max_delay d ≤ℤ max_delay
unfolding next_delay
next_delay-le max_delay d = elim (Bool-cases (ltb_ℤ max_delay (double d))) [
  | inl longer ↦ rw longer (omega arith)
  | inr fits ↦ rw fits (ground arith)
]

module _ {E : Type 0} (fn : ℕ → Option E) (done : ℕ → Bool) where
  -- The first attempt from `a` on that settles a run of `n` attempts; all before it failed, and
  -- the context was not done behind them.
  pub data Settles : ℕ → ℕ → Outcome E → ℕ → Type 0 where
    success : {n a : ℕ} → fn a ≡ none → Settles (suc n) a succeeded 1
    exhausted : {a : ℕ} {e : E} → fn a ≡ some e → Settles 1 a (failed e) 1
    stopped :
        {n a : ℕ} {e : E} → fn a ≡ some e → done a ≡ true → Settles (suc (suc n)) a cancelled 1
    again :
        {n a calls : ℕ} {e : E} {o : Outcome E}
        → fn a ≡ some e
        → done a ≡ false
        → Settles (suc n) (suc a) o calls
        → Settles (suc (suc n)) a o (suc calls)

  -- The outcome, the calls and the delays of a run.
  pub record IsRun (max_delay : Duration) (n a : ℕ) (r : Run E) : Type 0 where
    pub settles : Settles n a r.outcome r.calls
    pub bounded : All (λ (d : Duration). d ≤ℤ max_delay) r.waits

  module _ (max_delay : Duration) where
    settle-IsRun :
        (n a : ℕ) (r : Option E) (d : Bool) (delay : Duration) (rest : Run E)
        → fn a ≡ r
        → done a ≡ d
        → delay ≤ℤ max_delay
        → IsRun max_delay (suc n) (suc a) rest
        → IsRun max_delay (suc (suc n)) a (settle r false d delay rest)
    unfolding settle
    settle-IsRun n a none d delay rest is at short h = record { settles = success is; bounded = tt }
    settle-IsRun n a (some e) true delay rest is at short h = record {
      settles = stopped is at;
      bounded = (short, tt);
    }
    settle-IsRun n a (some e) false delay rest is at short h = record {
      settles = again is at h.settles;
      bounded = (short, h.bounded);
    }

    settle_last-IsRun :
        (a : ℕ) (r : Option E) (d : Bool) (delay : Duration) (rest : Run E)
        → fn a ≡ r
        → IsRun max_delay 1 a (settle r true d delay rest)
    unfolding settle
    settle_last-IsRun a none d delay rest is = record { settles = success is; bounded = tt }
    settle_last-IsRun a (some e) d delay rest is = record { settles = exhausted is; bounded = tt }

    attempts-IsRun :
        (n a : ℕ) (delay : Duration)
        → delay ≤ℤ max_delay
        → IsRun max_delay (suc n) a (attempts fn done max_delay (suc n) a delay)
    unfolding attempts
    attempts-IsRun zero a delay short = settle_last-IsRun a (fn a) (done a) delay _ refl
    attempts-IsRun (suc n) a delay short =
        settle-IsRun n a (fn a) (done a) delay _ refl refl short
          (attempts-IsRun n (suc a) (next_delay max_delay delay) (next_delay-le max_delay delay))

    -- With at least one attempt allowed, the outcome is settled by the first attempt that succeeds,
    -- by the context being done behind a failure, or by the last attempt, whose error is returned;
    -- no delay is longer than the bound if the first is not, though doubling may wrap around.
    pub retry-IsRun :
        (n : ℕ) (initial_delay : Duration)
        → initial_delay ≤ℤ max_delay
        → IsRun max_delay (suc n) 1 (retry fn done max_delay (pos (suc n)) initial_delay)
    unfolding retry
    retry-IsRun n initial_delay short = attempts-IsRun n 1 initial_delay short
