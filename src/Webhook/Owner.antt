-- ===== src/Webhook/Owner.antt =====
-- webhook.go, `TriggerManager`: the invariant on the entries of projects.
use mathlib.Core.Option.{some-injective}
use syncctl.Base.{
  ℕ, ◌≤◌, Bool, true, false, Option, none, some, ◌==◌, ==_iff, ◌≡◌, ◌≢◌, refl, sym, ◌∙◌, ap, inl,
  inr, arith, Text, text_eq, text_eq_iff, text_eq_refl, if_both, Bool-cases,
}
use syncctl.Webhook.Debounce.{
  Phase, absent, waiting, running, leaving, State, set_at, set_key, cancel_owner, is_owner, entered,
  released, left, moved, Step, enters, wakes, gives_up, returns, leaves, parent_ends, fresh,
  Reachable, at_start, then_step,
}

-- The numbers from the next one on are free, and a task that is under way and not cancelled holds
-- the entry of its project.
pub record Holds (s : State) : Type 0 where
  pub unused : (i : ℕ) → s.next ≤ i → s.phase i ≡ absent
  pub holds_entry :
      (i : ℕ) → s.phase i ≢ absent → s.cancelled i ≡ false → s.pending (s.project i) ≡ some i

fresh-Holds : Holds fresh
fresh-Holds = record { unused = λ i h. refl; holds_entry = λ i live calm. absurd (live refl) }

-- A task that is not the one at hand.
other_phase :
    {A : Type 0} (f : ℕ → A) (i : ℕ) (v : A) (j : ℕ) → (j == i) ≡ false → set_at f i v j ≡ f j
other_phase f i v j other = rw other refl

moved-Holds :
    (s : State) (i : ℕ) (phase : Phase) → s.phase i ≢ absent → Holds s → Holds (moved i phase s)
moved-Holds s i phase live h = record {
  unused = λ j free. elim (Bool-cases (j == i)) [
    | inl same ↦ absurd (live (ap s.phase (sym ((==_iff j i).0 same)) ∙ h.unused j free))
    | inr other ↦ other_phase s.phase i phase j other ∙ h.unused j free
  ];
  holds_entry = λ j live' calm. elim (Bool-cases (j == i)) [
    | inl same ↦ h.holds_entry j (λ e. live (ap s.phase (sym ((==_iff j i).0 same)) ∙ e)) calm
    | inr other ↦ h.holds_entry j (λ e. live' (other_phase s.phase i phase j other ∙ e)) calm
  ];
}

set_at-calm : (f : ℕ → Bool) (i j : ℕ) → set_at f i true j ≡ false → f j ≡ false
set_at-calm f i j calm = ground arith

cancel-Holds :
    (s : State) (i : ℕ) → Holds s → Holds (record s { cancelled = set_at s.cancelled i true })
cancel-Holds s i h = record {
  unused = h.unused;
  holds_entry = λ j live calm. h.holds_entry j live (set_at-calm s.cancelled i j calm);
}

-- The entry of another task of the same project is not this one's.
released-other :
    (i : ℕ) (s : State) (j : ℕ)
    → (j == i) ≡ false
    → s.pending (s.project j) ≡ some j
    → released i s (s.project j) ≡ some j
unfolding released set_key
released-other i s j other held = elim (Bool-cases (text_eq (s.project j) (s.project i))) [
  | inr apart ↦
      if_both (λ (m : Text → Option ℕ). m (s.project j) ≡ some j)
        (is_owner (s.pending (s.project i)) i) (rw apart held) held
  | inl together ↦
      let of_other : s.pending (s.project i) ≡ some j =
        ap s.pending (sym ((text_eq_iff (s.project j) (s.project i)).0 together)) ∙ held in
      let not_mine : is_owner (s.pending (s.project i)) i ≡ false = rw of_other other in
      rw not_mine held
]

left-Holds : (s : State) (i : ℕ) → Holds s → Holds (left i s)
unfolding left
left-Holds s i h = record {
  unused = λ j free. elim (Bool-cases (j == i)) [
    | inl same ↦ rw same refl
    | inr other ↦ other_phase s.phase i absent j other ∙ h.unused j free
  ];
  holds_entry = λ j live calm. elim (Bool-cases (j == i)) [
    | inl same ↦ absurd (live (rw same refl))
    | inr other ↦ released-other i s j other (
        h.holds_entry j (λ e. live (other_phase s.phase i absent j other ∙ e))
          (set_at-calm s.cancelled i j calm))
  ];
}

-- A task that is not cancelled by its successor does not hold the entry.
cancel_owner-calm :
    (o : Option ℕ) (cancelled : ℕ → Bool) (j : ℕ)
    → cancel_owner o cancelled j ≡ false
    → (o ≢ some j) × (cancelled j ≡ false)
unfolding cancel_owner
cancel_owner-calm none cancelled j calm = (λ e. cc, calm)
cancel_owner-calm (some i) cancelled j calm = elim (Bool-cases (j == i)) [
  | inl same ↦ ground arith
  | inr other ↦ (
    λ e. let same = (==_iff j i).1 (sym (some-injective i j e)) in cc,
    set_at-calm cancelled i j calm,
  )
]

entered-other :
    (p : Text) (s : State) (j : ℕ)
    → s.pending p ≢ some j
    → s.pending (s.project j) ≡ some j
    → set_key s.pending p (some s.next) (s.project j) ≡ some j
unfolding set_key
entered-other p s j apart held = elim (Bool-cases (text_eq (s.project j) p)) [
  | inl together ↦
      absurd (apart (ap s.pending (sym ((text_eq_iff (s.project j) p).0 together)) ∙ held))
  | inr other ↦ rw other held
]

entered-Holds : (p : Text) (s : State) → Holds s → Holds (entered p s)
unfolding entered set_key
entered-Holds p s h = record {
  unused = λ j free. elim (Bool-cases (j == s.next)) [
    | inl same ↦ let eq = (==_iff j s.next).0 same in absurd (omega arith)
    | inr other ↦ other_phase s.phase s.next waiting j other ∙ h.unused j (omega arith)
  ];
  holds_entry = λ j live calm. elim (Bool-cases (j == s.next)) [
    | inl same ↦ rw (same, text_eq_refl p) (ap some (sym ((==_iff j s.next).0 same)))
    | inr other ↦
        let live' =
          λ (e : s.phase j ≡ absent). live (other_phase s.phase s.next waiting j other ∙ e) in
        let (apart, calm') = cancel_owner-calm (s.pending p) s.cancelled j (
          sym (other_phase (cancel_owner (s.pending p) s.cancelled) s.next false j other) ∙ calm) in
        rw other (entered-other p s j apart (h.holds_entry j live' calm'))
  ];
}

pub waiting-ne-absent : ◌≢◌ {A = Phase} waiting absent
waiting-ne-absent e = cc

Step-Holds : {s t : State} → Step s t → Holds s → Holds t
Step-Holds {s} (enters p) h = entered-Holds p s h
Step-Holds {s} (wakes i at) h = moved-Holds s i running (λ e. waiting-ne-absent (sym at ∙ e)) h
Step-Holds {s} (gives_up i at _) h = moved-Holds s i leaving (λ e. waiting-ne-absent (sym at ∙ e)) h
Step-Holds {s} (returns i at) h = moved-Holds s i leaving (λ e. cc) h
Step-Holds {s} (leaves i at) h = left-Holds s i h
Step-Holds {s} (parent_ends i) h = cancel-Holds s i h

pub Reachable-Holds : {s : State} → Reachable s → Holds s
Reachable-Holds at_start = fresh-Holds
Reachable-Holds (then_step r step) = Step-Holds step (Reachable-Holds r)

-- However the calls of `Trigger` interleave, no two of a project are under way without one of them
-- being cancelled.
pub Reachable-unique :
    {s : State}
    → Reachable s
    → (i j : ℕ) → s.phase i ≢ absent
    → s.phase j ≢ absent
    → s.cancelled i ≡ false
    → s.cancelled j ≡ false
    → s.project i ≡ s.project j
    → i ≡ j
Reachable-unique {s} r i j live_i live_j calm_i calm_j same =
    let h = Reachable-Holds r in
    some-injective i j
      (sym (h.holds_entry i live_i calm_i) ∙ ap s.pending same ∙ h.holds_entry j live_j calm_j)
