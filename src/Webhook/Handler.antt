-- ===== src/Webhook/Handler.antt =====
-- internal/webhook/webhook.go: `NewServer` and `handleWebhook`. SHA-256 and the decoding of the JSON
-- payload are parameters.
pub mod Guarded
use syncctl.Base.{
  ℕ, suc, ◌+◌, ◌-◌, Bool, true, false, not, Option, none, some, List, [], ◌∷◌, take, ltb, Text,
  codes, is_empty, text_eq, ◌≡◌, if◌then◌else◌,
}
use syncctl.Base.Result.{Result, ok, err}
use syncctl.ProjectPath.{PathError}
use syncctl.ProjectPath

-- What the handler reads of a request; the body is `none` where reading it fails.
pub record Request : Type 0 where
  pub method : Text
  pub token : Text
  pub event : Text
  pub body : Option Text

-- The digest of the secret, and how many slots of the semaphore are taken.
pub record Server : Type 0 where
  pub token_digest : Text
  pub taken : ℕ

-- The capacity of `sem`
abbrev pub capacity : ℕ
capacity = 8

-- The status, and the project and event of the trigger that was started.
pub record Response : Type 0 where
  pub status : ℕ
  pub started : Option (Text × Text)

abbrev pub answer : ℕ → Server → Response × Server
answer status s = (record { status = status; started = none }, s)

pub data ServerError : Type 0 where
  empty_secret : ServerError

-- `io.LimitReader(req.Body, 1<<20)`
abbrev pub body_limit : ℕ
body_limit = 1048576

module _ (digest : Text → Text) (path_in : Text → Option Text) where
  -- `NewServer`
  unfoldable pub new_server : Text → Result ServerError Server
  new_server secret =
      if is_empty secret
      then err empty_secret
      else ok (record { token_digest = digest secret; taken = 0 })

  -- The `select` on the semaphore, which never waits.
  unfoldable pub start_trigger : Server → Text → Text → Response × Server
  start_trigger s path event =
      if ltb s.taken capacity
      then (record { status = 200; started = some (path, event) }, record s { taken = suc s.taken })
      else answer 503 s

  unfoldable pub with_path : Server → Text → Text → Result PathError (Unit {0}) → Response × Server
  unfolding start_trigger
  with_path s event path (ok _) = start_trigger s path event
  with_path s event path (err e) = answer 200 s

  -- `extractProjectPath` has failed or not; an empty path counts as none.
  unfoldable pub with_payload : Server → Text → Option Text → Response × Server
  unfolding with_path ProjectPath.validate
  with_payload s event none = answer 200 s
  with_payload s event (some path) =
      if is_empty path then answer 200 s else with_path s event path (ProjectPath.validate path)

  unfoldable pub with_body : Server → Text → Option Text → Response × Server
  unfolding with_payload
  with_body s event none = answer 400 s
  with_body s event (some body) = with_payload s event (path_in (take body_limit body))

  -- `handleWebhook`
  unfoldable pub handle : Request → Server → Response × Server
  unfolding text_eq with_body
  handle r s =
      if not (text_eq r.method (codes "POST"))
      then answer 405 s
      else if not (text_eq (digest r.token) s.token_digest)
      then answer 401 s
      else with_body s r.event r.body

  -- A request, or the end of a trigger, which gives its slot back.
  pub data Served (secret : Text) : Server → ℕ → Type 0 where
    opened : {s : Server} → new_server secret ≡ ok s → Served secret s 0
    quiet :
        {s : Server} {n : ℕ} (r : Request)
        → Served secret s n
        → (handle r s).0.started ≡ none
        → Served secret (handle r s).1 n
    triggers :
        {s : Server} {n : ℕ} (r : Request) {what : Text × Text}
        → Served secret s n
        → (handle r s).0.started ≡ some what
        → Served secret (handle r s).1 (suc n)
    ends :
        {s : Server} {n : ℕ}
        → Served secret s (suc n)
        → Served secret (record s { taken = s.taken - 1 }) n
