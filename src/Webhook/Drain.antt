-- ===== src/Webhook/Drain.antt =====
-- webhook.go, `TriggerManager`: the calls can always end.
use syncctl.Base.{
  ℕ, zero, suc, ◌<◌, none, ◌==◌, ltb, ==_iff, ◌≡◌, ◌≢◌, refl, sym, ◌∙◌, ap, inl, inr, arith, Text,
  Bool-cases,
}
use syncctl.Webhook.Debounce.{
  Phase, absent, waiting, running, leaving, State, set_at, left, moved, Step, wakes, returns,
  leaves, Reachable, then_step,
}
use syncctl.Webhook.Owner.{Reachable-Holds}
use syncctl.Webhook.Entries.{Reachable-Owned, no_entries}

-- Steps one after the other.
pub data Steps : State → State → Type 0 where
  stays : {s : State} → Steps s s
  steps : {s t u : State} → Step s t → Steps t u → Steps s u

Steps-trans : {s t u : State} → Steps s t → Steps t u → Steps s u
Steps-trans stays later = later
Steps-trans (steps first rest) later = steps first (Steps-trans rest later)

Reachable-Steps : {s t : State} → Reachable s → Steps s t → Reachable t
Reachable-Steps r stays = r
Reachable-Steps r (steps first rest) = Reachable-Steps (then_step r first) rest

-- Steps behind which a task has ended, no other has begun, and those that had ended still have.
record Ends (s t : State) (i : ℕ) : Type 0 where
  path : Steps s t
  ended : t.phase i ≡ absent
  kept : (j : ℕ) → s.phase j ≡ absent → t.phase j ≡ absent
  no_new : t.next ≡ s.next

set_at-kept :
    (f : ℕ → Phase) (i : ℕ) (phase : Phase) (j : ℕ)
    → f i ≢ absent
    → f j ≡ absent
    → set_at f i phase j ≡ absent
set_at-kept f i phase j live e = elim (Bool-cases (j == i)) [
  | inl same ↦ absurd (live (ap f (sym ((==_iff j i).0 same)) ∙ e))
  | inr other ↦ rw other e
]

set_at-same : (f : ℕ → Phase) (i : ℕ) (phase : Phase) → set_at f i phase i ≡ phase
set_at-same f i phase = rw ((==_iff i i).1 refl) refl

-- A task that moves on and then ends.
move-Ends :
    (s : State) (i : ℕ) (phase : Phase) (t : State)
    → s.phase i ≢ absent
    → Step s (moved i phase s)
    → Ends (moved i phase s) t i
    → Ends s t i
move-Ends s i phase t live step rest = record {
  path = steps step rest.path;
  ended = rest.ended;
  kept = λ j e. rest.kept j (set_at-kept s.phase i phase j live e);
  no_new = rest.no_new;
}

leave-Ends : (s : State) (i : ℕ) → s.phase i ≡ leaving → Ends s (left i s) i
unfolding left
leave-Ends s i at = record {
  path = steps (leaves i at) stays;
  ended = set_at-same s.phase i absent;
  kept = λ j e. set_at-kept s.phase i absent j (λ e'. let e2 = sym at ∙ e' in cc) e;
  no_new = refl;
}

-- Every task can end, wherever it stands.
return-Ends : (s : State) (i : ℕ) → s.phase i ≡ running → Ends s (left i (moved i leaving s)) i
return-Ends s i at =
    move-Ends s i leaving _ (λ e. let e2 = sym at ∙ e in cc) (returns i at)
      (leave-Ends (moved i leaving s) i (set_at-same s.phase i leaving))

wake-Ends :
    (s : State) (i : ℕ)
    → s.phase i ≡ waiting
    → Ends s (left i (moved i leaving (moved i running s))) i
wake-Ends s i at =
    move-Ends s i running _ (λ e. let e2 = sym at ∙ e in cc) (wakes i at)
      (return-Ends (moved i running s) i (set_at-same s.phase i running))

can_end : (s : State) (i : ℕ) (phase : Phase) → s.phase i ≡ phase → (t : State) × Ends s t i
can_end s i absent at = (s, record { path = stays; ended = at; kept = λ j e. e; no_new = refl })
can_end s i waiting at = (_, wake-Ends s i at)
can_end s i running at = (_, return-Ends s i at)
can_end s i leaving at = (_, leave-Ends s i at)

-- The tasks below a number end one after the other.
record Cleared (n : ℕ) (s t : State) : Type 0 where
  path : Steps s t
  ended : (j : ℕ) → j < n → t.phase j ≡ absent
  no_new : t.next ≡ s.next

end_all : (n : ℕ) (s : State) → (t : State) × Cleared n s t
end_all zero s = (s, record { path = stays; ended = λ j h. absurd (omega arith); no_new = refl })
end_all (suc n) s =
    let (t, b) = end_all n s in
    let (u, e) = can_end t n (t.phase n) refl in
    (
      u,
      record {
        path = Steps-trans b.path e.path;
        ended = λ j h. elim (Bool-cases (j == n)) [
          | inl same ↦ ap u.phase ((==_iff j n).0 same) ∙ e.ended
          | inr other ↦ e.kept j (b.ended j (ground arith))
        ];
        no_new = e.no_new ∙ b.no_new;
      },
    )

-- A state behind which nothing is under way and no project has an entry, with no new task on the way.
pub record Drained (s t : State) : Type 0 where
  pub path : Steps s t
  pub no_new : t.next ≡ s.next
  pub ended : (i : ℕ) → t.phase i ≡ absent
  pub empty : (p : Text) → t.pending p ≡ none

-- From every state that calls of `Trigger` lead to, steps of the tasks that are under way lead to one
-- where all have ended, and in which no project has an entry.
pub Reachable-drains : {s : State} → Reachable s → (t : State) × Drained s t
Reachable-drains {s} r =
    let (t, b) = end_all s.next s in
    let r' = Reachable-Steps r b.path in
    let ended : (i : ℕ) → t.phase i ≡ absent = λ i. elim (Bool-cases (ltb i s.next)) [
      | inl under ↦ b.ended i (ground arith)
      | inr free ↦ (Reachable-Holds r').unused i (let n = b.no_new in ground arith)
    ] in
    (
      t,
      record {
        path = b.path;
        no_new = b.no_new;
        ended = ended;
        empty = no_entries t (Reachable-Owned r') ended;
      },
    )
