-- ===== src/Reconciler/Retry.antt =====
-- internal/reconciler/retry.go: `Retry`. What the function returns at each attempt and whether the
-- context is done behind it are given from outside; the clock is the list of delays.
pub mod Settling
use syncctl.Base.{
  ℕ, zero, suc, ◌+◌, ◌-◌, ◌%◌, ◌^◌, Bool, true, false, Option, none, some, List, [], ◌∷◌, ltb, leb,
  if◌then◌else◌,
}
use syncctl.Base.Int.{ℤ, pos, negsuc, sub_ℕ, pos_part, ltb_ℤ}
use syncctl.Config.Types.{Duration}

pub data Outcome (E : Type 0) : Type 0 where
  -- nil: an attempt succeeded, or none was allowed
  succeeded : Outcome E
  failed : E → Outcome E
  cancelled : Outcome E

-- How it ended, the delays that were begun, and the number of calls.
pub record Run (E : Type 0) : Type 0 where
  pub outcome : Outcome E
  pub waits : List Duration
  pub calls : ℕ

-- `delay *= 2` on an `int64`
unfoldable pub double : Duration → Duration
double (pos n) =
    let m = (n + n) % 2 ^ 64 in if ltb m (2 ^ 63) then pos m else negsuc (2 ^ 64 - 1 - m)
double (negsuc n) =
    let m = (n + n + 2) % 2 ^ 64 in if leb m (2 ^ 63) then sub_ℕ 0 m else pos (2 ^ 64 - m)

unfoldable pub next_delay : Duration → Duration → Duration
unfolding double
next_delay max_delay delay =
    let twice = double delay in if ltb_ℤ max_delay twice then max_delay else twice

-- `attempt == maxAttempts`, by the attempts that are left behind this one.
abbrev is_last : ℕ → Bool
is_last zero = true
is_last (suc n) = false

module _ {E : Type 0} where
  -- One attempt, with the run of those behind it.
  unfoldable pub settle : Option E → Bool → Bool → Duration → Run E → Run E
  settle none last done delay rest = record { outcome = succeeded; waits = []; calls = 1 }
  settle (some e) true done delay rest = record { outcome = failed e; waits = []; calls = 1 }
  settle (some e) false true delay rest = record {
    outcome = cancelled;
    waits = delay ∷ [];
    calls = 1;
  }
  settle (some e) false false delay rest = record {
    outcome = rest.outcome;
    waits = delay ∷ rest.waits;
    calls = suc rest.calls;
  }

  module _ (fn : ℕ → Option E) (done : ℕ → Bool) (max_delay : Duration) where
    -- The loop, by the number of attempts that are left.
    unfoldable pub attempts : ℕ → ℕ → Duration → Run E
    unfolding settle next_delay
    attempts zero attempt delay = record { outcome = succeeded; waits = []; calls = 0 }
    attempts (suc n) attempt delay =
        settle (fn attempt) (is_last n) (done attempt) delay
          (attempts n (suc attempt) (next_delay max_delay delay))

    unfoldable pub retry : ℤ → Duration → Run E
    unfolding attempts
    retry max_attempts initial_delay = attempts (pos_part max_attempts) 1 initial_delay
