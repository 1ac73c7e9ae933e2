-- ===== src/Webhook/Entries.antt =====
-- webhook.go, `TriggerManager`: no entry of a project outlives its call.
use mathlib.Core.Option.{some-injective}
use syncctl.Base.{
  ℕ, true, false, Option, none, some, ◌==◌, ==_iff, ◌≡◌, ◌≢◌, refl, sym, ◌∙◌, ap, ◌⊎◌, inl, inr,
  arith, Text, text_eq, text_eq_iff, text_eq_refl, Bool-cases, if◌then◌else◌,
}
use syncctl.Webhook.Debounce.{
  Phase, absent, running, leaving, State, set_at, set_key, is_owner, entered, released, left, moved,
  Step, enters, wakes, gives_up, returns, leaves, parent_ends, Reachable, at_start, then_step,
}
use syncctl.Webhook.Owner.{Holds, Reachable-Holds, waiting-ne-absent}

-- The entry of a project is that of a task that is under way for it.
pub Owned : State → Type 0
Owned s = (p : Text) (i : ℕ) → s.pending p ≡ some i → (s.phase i ≢ absent) × (s.project i ≡ p)

moved-Owned :
    (s : State) (i : ℕ) (phase : Phase) → phase ≢ absent → Owned s → Owned (moved i phase s)
unfolding Owned
moved-Owned s i phase live h p j e =
    let (live_j, same) = h p j e in
    (elim (Bool-cases (j == i)) [ inl at ↦ rw at live | inr other ↦ rw other live_j ], same)

-- A task other than the next one keeps its place behind a new one.
entered-Owned : (q : Text) (s : State) → Holds s → Owned s → Owned (entered q s)
unfolding Owned entered set_key
entered-Owned q s k h p j e = elim (Bool-cases (text_eq p q)) [
  | inl same ↦
      let at : (j == s.next) ≡ true =
        (==_iff j s.next).1 (sym (some-injective s.next j (rw same at e))) in
      rw at (waiting-ne-absent, sym ((text_eq_iff p q).0 same))
  | inr other ↦
      let (live, same) = h p j (rw other at e) in
      elim (Bool-cases (j == s.next)) [
        | inl at ↦ absurd (live (k.unused j (let n = (==_iff j s.next).0 at in omega arith)))
        | inr old ↦ rw old (live, same)
      ]
]

-- An entry that a task leaves behind it is that of another task.
released-some :
    (s : State) (i : ℕ) (p : Text) (j : ℕ)
    → Owned s
    → released i s p ≡ some j
    → (s.pending p ≡ some j) × ((j == i) ≡ false)
unfolding Owned released set_key
released-some s i p j h e = elim (Bool-cases (is_owner (s.pending (s.project i)) i)) [
  | inl own ↦ by_key (Bool-cases (text_eq p (s.project i))) (rw own at e)
  | inr apart ↦
      let held : s.pending p ≡ some j = rw apart at e in
      (
        held,
        distinct held (λ same at.
            let mine : s.pending (s.project i) ≡ some i =
              ap s.pending (sym (ap s.project at) ∙ same) ∙ held ∙ ap some at in
            let own : is_owner (s.pending (s.project i)) i ≡ true = rw mine ((==_iff i i).1 refl) in
            cc),
      )
]
  where
    distinct : s.pending p ≡ some j → (s.project j ≡ p → j ≡ i → ⊥) → (j == i) ≡ false
    distinct held foreign = elim (Bool-cases (j == i)) [
      | inl at ↦ absurd (foreign (h p j held).1 ((==_iff j i).0 at))
      | inr other ↦ other
    ]

    by_key :
        ((text_eq p (s.project i) ≡ true) ⊎ (text_eq p (s.project i) ≡ false))
        → (if text_eq p (s.project i) then none else s.pending p) ≡ some j
        → (s.pending p ≡ some j) × ((j == i) ≡ false)
    by_key (inl same) k = let k' = rw same at k in cc
    by_key (inr other) k =
        let held : s.pending p ≡ some j = rw other at k in
        (
          held,
          distinct held (λ same at.
              let is : text_eq p (s.project i) ≡ true =
                rw (sym (ap s.project at), same) (text_eq_refl p) in
              cc),
        )

left-Owned : (s : State) (i : ℕ) → Owned s → Owned (left i s)
unfolding Owned left
left-Owned s i h p j e = let (held, other) = released-some s i p j h e in rw other (h p j held)

cancel-Owned :
    (s : State) (i : ℕ) → Owned s → Owned (record s { cancelled = set_at s.cancelled i true })
unfolding Owned
cancel-Owned s i h = h

Step-Owned : {s t : State} → Step s t → Holds s → Owned s → Owned t
Step-Owned {s} (enters p) k h = entered-Owned p s k h
Step-Owned {s} (wakes i at) k h = moved-Owned s i running (λ e. cc) h
Step-Owned {s} (gives_up i at _) k h = moved-Owned s i leaving (λ e. cc) h
Step-Owned {s} (returns i at) k h = moved-Owned s i leaving (λ e. cc) h
Step-Owned {s} (leaves i at) k h = left-Owned s i h
Step-Owned {s} (parent_ends i) k h = cancel-Owned s i h

pub Reachable-Owned : {s : State} → Reachable s → Owned s
Reachable-Owned at_start = unfold Owned in λ p i e. cc
Reachable-Owned (then_step r step) = Step-Owned step (Reachable-Holds r) (Reachable-Owned r)

-- Where every task has ended, no entry is left.
pub no_entries :
    (t : State) → Owned t → ((i : ℕ) → t.phase i ≡ absent) → (p : Text) → t.pending p ≡ none
unfolding Owned
no_entries t h ended p = by_entry (t.pending p) refl
  where
    by_entry : (o : Option ℕ) → t.pending p ≡ o → o ≡ none
    by_entry none e = refl
    by_entry (some i) e = absurd ((h p i e).0 (ended i))
