-- ===== src/Tests/Webhook.antt =====
-- The theorems about webhook.go at a request with the right token and at one task.
use syncctl.Base.{ℕ, ◌≤◌, Option, some, ◌≡◌, ◌≢◌, refl, sym, ◌∙◌, true, false, Text, codes}
use syncctl.Base.Result.{ok}
use syncctl.ProjectPath
use syncctl.Webhook.Debounce.{
  Reachable, State, absent, waiting, entered, enters, fresh, at_start, then_step,
}
use syncctl.Webhook.Handler.Guarded.{Admitted, Served-bounded, handle-Admitted}
use syncctl.Webhook.Handler.{Request, Served, Server, handle, new_server, opened, triggers}
use syncctl.Webhook.Drain.{Drained, Reachable-drains}
use syncctl.Webhook.Owner.{Reachable-unique}

-- The digest and the decoder of the tests.
abbrev same_text : Text → Text
same_text t = t

abbrev whole_body : Text → Option Text
whole_body body = some body

abbrev push : Request
push = record {
  method = codes "POST";
  token = codes "t0ken";
  event = codes "Push Hook";
  body = some (codes "group/repo");
}

abbrev server : Server
server = record { token_digest = codes "t0ken"; taken = 0 }

push_started :
    (handle same_text whole_body push server).0.started
    ≡ some (codes "group/repo", codes "Push Hook")
unfolding handle ProjectPath.validate
push_started = refl

handle-Admitted_example :
    Admitted same_text whole_body server push (codes "group/repo") (codes "Push Hook")
handle-Admitted_example = handle-Admitted same_text whole_body push server push_started

server_opened : new_server same_text whole_body (codes "t0ken") ≡ ok server
unfolding new_server
server_opened = refl

abbrev busy : Server
busy = (handle same_text whole_body push server).1

push-Served : Served same_text whole_body (codes "t0ken") busy 1
push-Served = triggers push (opened server_opened) push_started

Served-bounded_example : (busy.taken ≡ 1) × (1 ≤ 8)
Served-bounded_example = Served-bounded same_text whole_body push-Served

-- Two pushes to a project, the second while the first task waits.
abbrev two_tasks : State
two_tasks = entered (codes "group/repo") (entered (codes "group/repo") fresh)

two_tasks-Reachable : Reachable two_tasks
two_tasks-Reachable =
    then_step (then_step at_start (enters (codes "group/repo"))) (enters (codes "group/repo"))

first_cancelled : (two_tasks.cancelled 0 ≡ true) × (two_tasks.cancelled 1 ≡ false)
unfolding entered
first_cancelled = (refl, refl)

second_waits : two_tasks.phase 1 ≡ waiting
unfolding entered
second_waits = refl

second_live : two_tasks.phase 1 ≢ absent
second_live gone = let same = sym second_waits ∙ gone in cc

Reachable-unique_example : ◌≡◌ {A = ℕ} 1 1
Reachable-unique_example =
    Reachable-unique two_tasks-Reachable 1 1 second_live second_live first_cancelled.1
      first_cancelled.1 refl

Reachable-drains_example : (t : State) × Drained two_tasks t
Reachable-drains_example = Reachable-drains two_tasks-Reachable
