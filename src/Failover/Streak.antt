-- ===== src/Failover/Streak.antt =====
-- failover.go, `check`: the flag and the counter over several rounds, and the rounds that promote.
use mathlib.Core.List.{append-nil, append_assoc}
use syncctl.Base.{
  List, [], ◌∷◌, ◌++◌, map, sym, ◌∙◌, ℕ, zero, suc, ◌+◌, ◌≤◌, Bool, true, false, ◌&&◌, leb, ◌≡◌,
  refl, ◌⊎◌, inl, inr, arith, Text, if◌then◌else◌, if_both, Bool-cases,
}
use syncctl.Base.Result.{Result, ok, err}
use syncctl.Effects.{World, Log, poll}
use syncctl.Failover.Keeps.{Keeps, promote-Keeps}
use syncctl.Failover.Health.{count_failures, reaches}
use syncctl.Failover.Monitor.{
  auto_promote, declare_down, failed_check, after_poll, check, run_checks, start,
}
use syncctl.Failover.Targets.{auto_failover_target}
use syncctl.Failover.{Controller, State, FailoverError}

-- Every URL is polled, in their order.
count_failures-polls :
    (w : World) (urls : List Text) (l : Log) → (count_failures w urls l).1 ≡ l ++ map poll urls
unfolding count_failures
count_failures-polls w [] l = sym (append-nil l)
count_failures-polls w (url ∷ urls) l =
    count_failures-polls w urls (l ++ poll url ∷ [])
    ∙ append_assoc l (poll url ∷ []) (map poll urls)

module _ (w : World) (c : Controller) where
  -- Whether the next round finds as many failures as the quorum asks.
  abbrev pub fails_now : State → Bool
  fails_now s = reaches w (count_failures w c.health_urls s.log).0 c.quorum

  auto_promote-Keeps :
      (target : Result FailoverError Text) (s : State) → Keeps s (auto_promote w c target s)
  unfolding auto_promote
  auto_promote-Keeps (err e) s = record { same_count = refl; still_down = λ h. h }
  auto_promote-Keeps (ok name) s = promote-Keeps w c name s

  declare_down-Keeps : (s : State) → Keeps s (declare_down w c s)
  unfolding declare_down
  declare_down-Keeps s =
      if_both (Keeps s) c.auto_failover (auto_promote-Keeps (auto_failover_target c.cfg) s)
        (record { same_count = refl; still_down = λ h. h })

  -- The flag says whether three rounds or more have failed in a row.
  abbrev FlagIsRight : State → Type 0
  FlagIsRight s = s.primary_down ≡ leb 3 s.consecutive_fails

  failed_check-count : (s : State) → (failed_check w c s).consecutive_fails ≡ s.consecutive_fails
  unfolding failed_check
  failed_check-count s =
      if_both (λ (t : State). t.consecutive_fails ≡ s.consecutive_fails) (leb 3 s.consecutive_fails)
        (declare_down-Keeps (record s { primary_down = true })).same_count refl

  failed_check-down :
      (s : State)
      → (failed_check w c s).primary_down
        ≡ (if leb 3 s.consecutive_fails then true else s.primary_down)
  unfolding failed_check
  failed_check-down s = elim (Bool-cases (leb 3 s.consecutive_fails)) [
    | inl third ↦
        simp third ((declare_down-Keeps (record s { primary_down = true })).still_down refl)
    | inr early ↦ simp early
  ]

  check-count :
      (s : State)
      → (check w c s).consecutive_fails ≡ (if fails_now s then s.consecutive_fails + 1 else 0)
  unfolding check after_poll
  check-count s = elim (Bool-cases (fails_now s)) [
    | inl failed ↦ simp (failed, failed_check-count)
    | inr passed ↦ simp passed
  ]

  check-down :
      (s : State)
      → (check w c s).primary_down ≡ (
          if fails_now s
          then (if leb 3 (s.consecutive_fails + 1) then true else s.primary_down)
          else false)
  unfolding check after_poll
  check-down s = elim (Bool-cases (fails_now s)) [
    | inl failed ↦ simp (failed, failed_check-down)
    | inr passed ↦ simp passed
  ]

  check-FlagIsRight : (s : State) → FlagIsRight s → FlagIsRight (check w c s)
  check-FlagIsRight s right = ground (arith, check-count s, check-down s)

  run_checks-FlagIsRight : (n : ℕ) → FlagIsRight (run_checks w c n start)
  unfolding run_checks
  run_checks-FlagIsRight zero = refl
  run_checks-FlagIsRight (suc n) = check-FlagIsRight _ (run_checks-FlagIsRight n)

  -- Behind any number of rounds the primary counts as down exactly if each of the last three
  -- rounds found as many failed URLs as the quorum asks.
  pub run_checks-primary_down :
      (n : ℕ)
      → (run_checks w c (suc (suc (suc n))) start).primary_down ≡ (
          fails_now (run_checks w c n start)
          && fails_now (run_checks w c (suc n) start)
          && fails_now (run_checks w c (suc (suc n)) start))
  unfolding run_checks
  run_checks-primary_down n = ground (
    arith,
    run_checks-FlagIsRight (suc (suc (suc n))),
    check-count (run_checks w c n start),
    check-count (run_checks w c (suc n) start),
    check-count (run_checks w c (suc (suc n)) start),
  )

  -- A round that promotes: the third failure in a row or a later one, with automatic failover on
  -- and a target that is determined.
  pub record Triggers (s : State) : Type 0 where
    pub failed : fails_now s ≡ true
    pub third : 2 ≤ s.consecutive_fails
    pub automatic : c.auto_failover ≡ true
    pub target : Text
    pub determined : auto_failover_target c.cfg ≡ ok target

  auto_promote-quiet :
      (r : Result FailoverError Text) (s : State)
      → ((auto_promote w c r s).log ≡ s.log) ⊎ ((name : Text) × (r ≡ ok name))
  unfolding auto_promote
  auto_promote-quiet (err e) s = inl refl
  auto_promote-quiet (ok name) s = inr (name, refl)

  -- What a failed round needs for a promotion.
  record Reasons (s : State) : Type 0 where
    third : leb 3 s.consecutive_fails ≡ true
    automatic : c.auto_failover ≡ true
    target : Text
    determined : auto_failover_target c.cfg ≡ ok target

  failed_check-Reasons : (s : State) → ((failed_check w c s).log ≡ s.log) ⊎ Reasons s
  unfolding failed_check declare_down
  failed_check-Reasons s = elim (Bool-cases (leb 3 s.consecutive_fails)) [
    | inr early ↦ inl (simp early)
    | inl third ↦ elim (Bool-cases c.auto_failover) [
      | inr off ↦ inl (simp (third, off))
      | inl on ↦
          elim (auto_promote-quiet (auto_failover_target c.cfg)
            (record s { primary_down = true })) [
              | inl quiet ↦ inl (simp (third, on) quiet)
              | inr (name, found) ↦
                  inr (record { third = third; automatic = on; target = name; determined = found })
            ]
    ]
  ]

  -- A round that is none that promotes sends exactly one poll of each health URL, in their order.
  pub check-Triggers :
      (s : State) → ((check w c s).log ≡ s.log ++ map poll c.health_urls) ⊎ Triggers s
  unfolding check after_poll
  check-Triggers s =
      let polled = count_failures-polls w c.health_urls s.log in
      elim (Bool-cases (fails_now s)) [
        | inr passed ↦ inl (simp passed polled)
        | inl failed ↦
            elim (failed_check-Reasons (record s {
              consecutive_fails = s.consecutive_fails + 1;
              log = (count_failures w c.health_urls s.log).1;
            })) [
              | inl quiet ↦ inl (simp failed (quiet ∙ polled))
              | inr reasons ↦ inr (record {
                failed = failed;
                third = let h = reasons.third in ground arith;
                automatic = reasons.automatic;
                target = reasons.target;
                determined = reasons.determined;
              })
            ]
      ]
