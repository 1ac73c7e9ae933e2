-- ===== src/Webhook/Handler/Guarded.antt =====
-- webhook.go, `handleWebhook`: the guards before a trigger, and the semaphore.
use mathlib.Core.Option.{some-injective, none-ne-some}
use mathlib.Core.Path.{subst}
use syncctl.Base.{
  not-false, ℕ, suc, ◌≤◌, ◌<◌, Bool, true, false, not, Option, none, some, take, ltb, ◌≡◌, refl,
  arith, Text, codes, is_empty, text_eq, text_eq_iff, if◌then◌else◌, Bool-cases, inl, inr, if_both,
  ◌∙◌, ap, sym, ltb→lt,
}
use syncctl.Base.Result.{Result, ok, err}
use syncctl.ProjectPath.Safe.{IsContained, validate-IsContained}
use syncctl.ProjectPath.{PathError}
use syncctl.ProjectPath
use syncctl.Webhook.Handler.{
  Request, Server, Response, capacity, answer, body_limit, new_server, start_trigger, with_path,
  with_payload, with_body, handle, Served, opened, quiet, triggers, ends,
}

module _ (digest : Text → Text) (path_in : Text → Option Text) where
  -- How a response changes the semaphore: a trigger takes a free slot, and nothing else does.
  pub data Slots (s : Server) : Response × Server → Type 0 where
    kept : {status : ℕ} → Slots s (record { status = status; started = none }, s)
    took :
        {what : Text × Text}
        → s.taken < capacity
        → Slots s (record { status = 200; started = some what }, record s { taken = suc s.taken })

  start_trigger-Slots :
      (s : Server) (path event : Text) → Slots s (start_trigger digest path_in s path event)
  unfolding start_trigger
  start_trigger-Slots s path event = elim (Bool-cases (ltb s.taken capacity)) [
    | inl free ↦ rw free (took (ground arith))
    | inr full ↦ rw full kept
  ]

  with_path-Slots :
      (s : Server) (event path : Text) (r : Result PathError (Unit {0}))
      → Slots s (with_path digest path_in s event path r)
  unfolding with_path
  with_path-Slots s event path (ok _) = start_trigger-Slots s path event
  with_path-Slots s event path (err e) = kept

  with_payload-Slots :
      (s : Server) (event : Text) (payload : Option Text)
      → Slots s (with_payload digest path_in s event payload)
  unfolding with_payload
  with_payload-Slots s event none = kept
  with_payload-Slots s event (some path) =
      if_both (Slots s) (is_empty path) kept
        (with_path-Slots s event path (ProjectPath.validate path))

  with_body-Slots :
      (s : Server) (event : Text) (body : Option Text)
      → Slots s (with_body digest path_in s event body)
  unfolding with_body
  with_body-Slots s event none = kept
  with_body-Slots s event (some body) = with_payload-Slots s event (path_in (take body_limit body))

  handle-Slots : (r : Request) (s : Server) → Slots s (handle digest path_in r s)
  unfolding handle
  handle-Slots r s = if_both (Slots s) (not (text_eq r.method (codes "POST"))) kept (
      if_both (Slots s) (not (text_eq (digest r.token) s.token_digest)) kept
        (with_body-Slots s r.event r.body))

  new_server-taken :
      (secret : Text) {s : Server} → new_server digest path_in secret ≡ ok s → s.taken ≡ 0
  unfolding new_server
  new_server-taken secret h = ground arith

  Slots-none :
      {s : Server} {out : Response × Server}
      → Slots s out
      → out.0.started ≡ none
      → out.1.taken ≡ s.taken
  Slots-none kept h = refl
  Slots-none (took free) h = cc

  Slots-some :
      {s : Server} {out : Response × Server} {what : Text × Text}
      → Slots s out
      → out.0.started ≡ some what
      → (out.1.taken ≡ suc s.taken) × (s.taken < capacity)
  Slots-some kept h = cc
  Slots-some (took free) h = (refl, free)

  Served-taken :
      {secret : Text} {s : Server} {n : ℕ}
      → Served digest path_in secret s n
      → (s.taken ≡ n) × (n ≤ capacity)
  Served-taken (opened h) = (new_server-taken _ h, omega arith)
  Served-taken (quiet r before h) =
      let (same, bound) = Served-taken before in
      let kept_taken = Slots-none (handle-Slots r _) h in (kept_taken ∙ same, bound)
  Served-taken (triggers r before h) =
      let (same, bound) = Served-taken before in
      let (more, free) = Slots-some (handle-Slots r _) h in (omega arith, omega arith)
  Served-taken (ends before) = let (same, bound) = Served-taken before in (omega arith, omega arith)

  -- After any requests and ends of triggers, the taken slots are as many as the triggers that run,
  -- and these are at most eight.
  pub Served-bounded :
      {secret : Text} {s : Server} {n : ℕ}
      → Served digest path_in secret s n
      → (s.taken ≡ n) × (n ≤ 8)
  Served-bounded served = Served-taken served

  -- What a request that starts a trigger has shown.
  pub record Admitted (s : Server) (r : Request) (path event : Text) : Type 0 where
    pub is_post : r.method ≡ codes "POST"
    pub token_right : digest r.token ≡ s.token_digest
    pub event_is : event ≡ r.event
    pub body : Text
    pub body_read : r.body ≡ some body
    pub path_found : path_in (take body_limit body) ≡ some path
    pub contained : IsContained path
    pub free_slot : s.taken < capacity

  start_trigger-started :
      (s : Server) (path event : Text) {p e : Text}
      → (start_trigger digest path_in s path event).0.started ≡ some (p, e)
      → (p ≡ path) × (e ≡ event) × (s.taken < capacity)
  unfolding start_trigger
  start_trigger-started s path event {p} {e} h = elim (Bool-cases (ltb s.taken capacity)) [
    | inl free ↦
        let same : (path, event) ≡ (p, e) = some-injective _ _ (rw free at h) in
        (ap (λ x. x.0) (sym same), ap (λ x. x.1) (sym same), ltb→lt _ _ free)
    | inr full ↦ absurd (none-ne-some _ (rw full at h))
  ]

  with_path-started :
      (s : Server) (event path : Text) (r : Result PathError (Unit {0})) {p e : Text}
      → ProjectPath.validate path ≡ r
      → (with_path digest path_in s event path r).0.started ≡ some (p, e)
      → (p ≡ path) × (e ≡ event) × (s.taken < capacity) × IsContained path
  unfolding with_path
  with_path-started s event path (ok _) valid h =
      let (a, b, free) = start_trigger-started s path event h in
      (a, b, free, validate-IsContained path valid)
  with_path-started s event path (err e) valid h = cc

  -- A guard that starts nothing was passed.
  refused_by :
      (b : Bool) (x y : Response × Server) {what : Text × Text}
      → x.0.started ≡ none
      → (if b then x else y).0.started ≡ some what
      → (b ≡ false) × (y.0.started ≡ some what)
  refused_by true x y nothing h = absurd (none-ne-some _ (sym nothing ∙ h))
  refused_by false x y nothing h = (refl, h)

  with_payload-started :
      (s : Server) (event : Text) (payload : Option Text) {p e : Text}
      → (with_payload digest path_in s event payload).0.started ≡ some (p, e)
      → (payload ≡ some p) × (e ≡ event) × (s.taken < capacity) × IsContained p
  unfolding with_payload
  with_payload-started s event none h = cc
  with_payload-started s event (some path) h =
      let (_, later) =
        refused_by (is_empty path) (answer 200 s)
          (with_path digest path_in s event path (ProjectPath.validate path)) refl h in
      let (a, b, free, fine) =
        with_path-started s event path (ProjectPath.validate path) refl later in
      (ap some (sym a), b, free, subst IsContained (sym a) fine)

  with_body-started :
      (s : Server) (event : Text) (body : Option Text) {p e : Text}
      → (with_body digest path_in s event body).0.started ≡ some (p, e)
      → (text : Text) × (body ≡ some text)
        × (path_in (take body_limit text) ≡ some p)
        × (e ≡ event)
        × (s.taken < capacity)
        × IsContained p
  unfolding with_body
  with_body-started s event none h = cc
  with_body-started s event (some body) h =
      let (found, same, free, fine) =
        with_payload-started s event (path_in (take body_limit body)) h in
      (body, refl, found, same, free, fine)

  -- A trigger is started only by a POST whose token has the digest of the secret and whose body was
  -- read, for the path that its payload names, which `Validate` accepts, with a slot that is free;
  -- the path hence leads from any directory to an entry below it.
  pub handle-Admitted :
      (r : Request) (s : Server) {path event : Text}
      → (handle digest path_in r s).0.started ≡ some (path, event)
      → Admitted s r path event
  unfolding handle
  handle-Admitted r s h =
      let wrong_method = not (text_eq r.method (codes "POST")) in
      let wrong_token = not (text_eq (digest r.token) s.token_digest) in
      let rest = with_body digest path_in s r.event r.body in
      let (post, h1) =
        refused_by wrong_method (answer 405 s) (if wrong_token then answer 401 s else rest) refl
          h in
      let (right, h2) = refused_by wrong_token (answer 401 s) rest refl h1 in
      let (body, read, found, same, free, fine) = with_body-started s r.event r.body h2 in
      record {
        is_post = (text_eq_iff r.method _).0 (not-false _ post);
        token_right = (text_eq_iff (digest r.token) s.token_digest).0 (not-false _ right);
        event_is = same;
        body = body;
        body_read = read;
        path_found = found;
        contained = fine;
        free_slot = free;
      }
