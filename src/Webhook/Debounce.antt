-- ===== src/Webhook/Debounce.antt =====
-- internal/webhook/webhook.go: `TriggerManager`, whose calls run side by side. A call of `Trigger` is
-- a task with a number; the mutex makes a step of each stretch of code that holds it, and the tasks
-- interleave in any order.
use syncctl.Base.{
  ℕ, suc, Bool, true, false, Option, none, some, [], ◌==◌, ◌≡◌, Text, text_eq, if◌then◌else◌,
}

-- Where a task stands: before its start or behind its end, in the `select`, in the trigger, or with
-- the deferred calls ahead.
pub data Phase : Type 0 where
  absent waiting running leaving : Phase

-- The fields are maps over the numbers of the tasks, and `pending` is one over the projects. The
-- number stands for the identity of the `pendingTrigger`.
pub record State : Type 0 where
  pub next : ℕ
  pub phase : ℕ → Phase
  pub cancelled : ℕ → Bool
  pub project : ℕ → Text
  pub pending : Text → Option ℕ

abbrev pub set_at : {A : Type 0} → (ℕ → A) → ℕ → A → ℕ → A
set_at f i v j = if j == i then v else f j

unfoldable pub set_key : (Text → Option ℕ) → Text → Option ℕ → Text → Option ℕ
unfolding text_eq
set_key m p v q = if text_eq q p then v else m q

-- `prev.cancel()`, if there is one.
unfoldable pub cancel_owner : Option ℕ → (ℕ → Bool) → ℕ → Bool
cancel_owner none cancelled = cancelled
cancel_owner (some i) cancelled = set_at cancelled i true

abbrev pub is_owner : Option ℕ → ℕ → Bool
is_owner none i = false
is_owner (some j) i = j == i

-- The first critical section of `Trigger`: the task before is cancelled, and this one takes its place.
unfoldable pub entered : Text → State → State
unfolding set_key cancel_owner
entered p s = record {
  next = suc s.next;
  phase = set_at s.phase s.next waiting;
  cancelled = set_at (cancel_owner (s.pending p) s.cancelled) s.next false;
  project = set_at s.project s.next p;
  pending = set_key s.pending p (some s.next);
}

-- The deferred calls: the entry is deleted if it is still this task's, and the context is cancelled.
unfoldable pub released : ℕ → State → Text → Option ℕ
unfolding set_key
released i s =
    if is_owner (s.pending (s.project i)) i then set_key s.pending (s.project i) none else s.pending

unfoldable pub left : ℕ → State → State
unfolding released
left i s = record s {
  phase = set_at s.phase i absent;
  cancelled = set_at s.cancelled i true;
  pending = released i s;
}

abbrev pub moved : ℕ → Phase → State → State
moved i phase s = record s { phase = set_at s.phase i phase }

-- One step of any task, or of the context that all of them inherit.
pub data Step (s : State) : State → Type 0 where
  enters : (p : Text) → Step s (entered p s)
  -- the timer, which the `select` may choose though the context is done as well
  wakes : (i : ℕ) → s.phase i ≡ waiting → Step s (moved i running s)
  gives_up : (i : ℕ) → s.phase i ≡ waiting → s.cancelled i ≡ true → Step s (moved i leaving s)
  returns : (i : ℕ) → s.phase i ≡ running → Step s (moved i leaving s)
  leaves : (i : ℕ) → s.phase i ≡ leaving → Step s (left i s)
  parent_ends : (i : ℕ) → Step s (record s { cancelled = set_at s.cancelled i true })

-- The manager that `NewTriggerManager` returns.
abbrev pub fresh : State
fresh = record {
  next = 0;
  phase = λ i. absent;
  cancelled = λ i. false;
  project = λ i. [];
  pending = λ p. none;
}

pub data Reachable : State → Type 0 where
  at_start : Reachable fresh
  then_step : {s t : State} → Reachable s → Step s t → Reachable t
