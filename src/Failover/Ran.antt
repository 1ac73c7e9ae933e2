-- ===== src/Failover/Ran.antt =====
-- The predicate that an action sends the first requests of a list, stated by the log, and the
-- rules for sequences of steps in failover.go.
use mathlib.Core.List.{append-nil, append_assoc}
use syncctl.Base.{Bool, true, false, List, [], ◌∷◌, ◌++◌, ◌≡◌, refl, sym, ◌∙◌, ap}
use syncctl.Base.Result.{Result, ok, err, succeeds}
use syncctl.Effects.{Event, Log, Action, go_on, wrap_result}
use syncctl.Failover.Steps.{Step, run_steps}
use syncctl.Failover.{State, step_failed, Act}

-- Of the requests `es`, those of `ran` were added to the log; all of them on success.
pub record Ran (l : Log) (es : List Event) (done : Bool) (l' : Log) : Type 0 where
  pub ran : List Event
  pub left : List Event
  pub log_is : l' ≡ l ++ ran
  pub splits : es ≡ ran ++ left
  pub finished : done ≡ true → left ≡ []

abbrev pub Performs : {E A : Type 0} → Action Log E A → List Event → Type 0
Performs act es = (l : Log) → Ran l es (succeeds (act l).0) (act l).1

-- The same of an action on the controller.
abbrev pub Acts : Act (Unit {0}) → List Event → Type 0
Acts act es = (s : State) → Ran s.log es (succeeds (act s).0) (act s).1.log

pub Ran-none : (l : Log) (done : Bool) → Ran l [] done l
Ran-none l done = record {
  ran = [];
  left = [];
  log_is = sym (append-nil l);
  splits = refl;
  finished = λ _. refl;
}

-- A failure before the first request.
pub Ran-refused : (l : Log) (es : List Event) → Ran l es false l
Ran-refused l es = record {
  ran = [];
  left = es;
  log_is = sym (append-nil l);
  splits = refl;
  finished = λ h. cc;
}

pub Ran-sent : (l : Log) (e : Event) (done : Bool) → Ran l (e ∷ []) done (l ++ e ∷ [])
Ran-sent l e done = record {
  ran = e ∷ [];
  left = [];
  log_is = refl;
  splits = refl;
  finished = λ _. refl;
}

-- One list of requests behind another that was sent whole.
pub Ran-append :
    (l l' l'' : Log) (es fs : List Event) (done : Bool)
    → Ran l es true l'
    → Ran l' fs done l''
    → Ran l (es ++ fs) done l''
Ran-append l l' l'' es fs done a b = record {
  ran = es ++ b.ran;
  left = b.left;
  log_is =
      b.log_is
      ∙ ap (λ x. x ++ b.ran) (a.log_is ∙ ap (λ x. l ++ x) (sym whole))
      ∙ append_assoc l es b.ran;
  splits = ap (λ x. es ++ x) b.splits ∙ sym (append_assoc es b.ran b.left);
  finished = b.finished;
}
  where
    whole : es ≡ a.ran
    whole = a.splits ∙ rw (a.finished refl) (append-nil a.ran)

pub Ran-stopped : (l l' : Log) (es fs : List Event) → Ran l es false l' → Ran l (es ++ fs) false l'
Ran-stopped l l' es fs a = record {
  ran = a.ran;
  left = a.left ++ fs;
  log_is = a.log_is;
  splits = ap (λ x. x ++ fs) a.splits ∙ append_assoc a.ran a.left fs;
  finished = λ h. cc;
}

-- The rule for a sequence of two actions.
pub go_on-Ran :
    {S E A B : Type 0} (log_of : S → Log) (l : Log) (es fs : List Event) (r : Result E A × S)
    (k : A → S → Result E B × S)
    → Ran l es (succeeds r.0) (log_of r.1)
    → ((a : A) (s : S) → Ran (log_of s) fs (succeeds (k a s).0) (log_of (k a s).1))
    → Ran l (es ++ fs) (succeeds (go_on r k).0) (log_of (go_on r k).1)
go_on-Ran log_of l es fs (ok x, s) k a b = Ran-append l (log_of s) _ es fs _ a (b x s)
go_on-Ran log_of l es fs (err e, s) k a b = Ran-stopped l (log_of s) es fs a

-- The error that an action wraps does not show in the log.
pub wrap_result-Ran :
    {S E F A : Type 0} (log_of : S → Log) (f : E → F) (r : Result E A × S) (l : Log)
    (es : List Event)
    → Ran l es (succeeds r.0) (log_of r.1)
    → Ran l es (succeeds (wrap_result f r).0) (log_of (wrap_result f r).1)
wrap_result-Ran log_of f (ok a, l') l es h = h
wrap_result-Ran log_of f (err e, l') l es h = h

-- The steps of a sequence, each with the requests that it sends.
pub data Plan : List Step → List Event → Type 0 where
  done : Plan [] []
  next :
      {step : Step} {steps : List Step} {es fs : List Event}
      → Acts step.act es
      → Plan steps fs
      → Plan (step ∷ steps) (es ++ fs)

pub run_steps_wet :
    (step : Step) (steps : List Step) (s : State)
    → run_steps false (step ∷ steps) s
      ≡ go_on (wrap_result (step_failed step.name) (step.act s)) (λ _. run_steps false steps)
unfolding run_steps
run_steps_wet step steps s = refl

-- A sequence of steps sends the requests of its steps in order, and stops at the first failure.
pub run_steps-Acts :
    {steps : List Step} {es : List Event} → Plan steps es → Acts (run_steps false steps) es
unfolding run_steps
run_steps-Acts done s = Ran-none s.log true
run_steps-Acts (next {step} {steps} {es} {fs} a plan) s =
    go_on-Ran (λ t. t.log) s.log es fs (wrap_result (step_failed step.name) (step.act s))
      (λ _. run_steps false steps)
      (wrap_result-Ran (λ t. t.log) (step_failed step.name) (step.act s) s.log es (a s))
      (λ _. run_steps-Acts plan)
