-- ===== src/ApiValidator.antt =====
-- internal/reconciler/apivalidator/reconciler.go: the counts that the API of both sites gives. Of an error
-- the text is not rendered.
pub mod Agreement
pub mod Answers
pub mod ReadOnly
use syncctl.Base.{
  ℕ, zero, suc, Bool, true, false, Option, none, some, List, [], ◌∷◌, ◌++◌, ◌==◌, Text, codes,
  is_empty, if◌then◌else◌,
}
use syncctl.Base.Int.{ℤ, pos, negsuc}
use syncctl.Base.Result.{Result, ok, err}

-- A request: its method, its URL and its header PRIVATE-TOKEN.
pub record ApiRequest : Type 0 where
  pub method : Text
  pub url : Text
  pub token : Text

-- A failed request, a redirect to a URL, or a status with the number that `Sscanf` reads from X-Total.
pub data ApiReply : Type 0 where
  no_reply : ApiReply
  redirected : Text → ApiReply
  replied : ℕ → Option ℤ → ApiReply

-- The answers by the requests before, and `url.Parse` with the text of what it gives.
pub record ApiWorld : Type 0 where
  pub reply : List ApiRequest → ApiRequest → ApiReply
  pub parse : Text → Option Text

-- A site of `Reconciler`: its URL and its token.
pub record ApiSite : Type 0 where
  pub url : Text
  pub token : Text

pub data CountError : Type 0 where
  bad_url request_failed too_many_redirects no_total : CountError
  bad_status : ℕ → CountError

abbrev pub with_total : Option ℤ → Result CountError ℤ
with_total none = err no_total
with_total (some n) = ok n

-- The requests that a client sends for one call of `Do`, before it gives up on redirects.
abbrev pub most_requests : ℕ
most_requests = 10

abbrev pub count_url : Text → Text → Text
count_url base path = base ++ (codes "/" ++ (path ++ codes "?per_page=1"))

abbrev pub get_with : Text → Text → ApiRequest
get_with token url = record { method = codes "GET"; url = url; token = token }

-- The verdict on a status.
unfoldable pub read_count : ℕ → Option ℤ → Result CountError ℤ
read_count status total = if status == 200 then with_total total else err (bad_status status)

unfoldable pub after_reply :
    (Text → Result CountError ℤ × List ApiRequest)
    → ApiReply
    → List ApiRequest
    → Result CountError ℤ × List ApiRequest
unfolding read_count
after_reply follow no_reply log = (err request_failed, log)
after_reply follow (redirected url) log = follow url
after_reply follow (replied status total) log = (read_count status total, log)

module _ (w : ApiWorld) where
  -- `client.Do`, which follows redirects by itself and keeps the header, whatever host they lead to.
  unfoldable pub send : ℕ → Text → Text → List ApiRequest → Result CountError ℤ × List ApiRequest
  unfolding after_reply
  send zero token url log = (err too_many_redirects, log)
  send (suc n) token url log =
      after_reply (λ to. send n token to (log ++ get_with token url ∷ []))
        (w.reply log (get_with token url)) (log ++ get_with token url ∷ [])

  abbrev pub send_parsed :
      Text → Option Text → List ApiRequest → Result CountError ℤ × List ApiRequest
  send_parsed token none log = (err bad_url, log)
  send_parsed token (some url) log = send most_requests token url log

  -- `fetchCount`
  unfoldable pub fetch_count :
      ApiSite → Text → List ApiRequest → Result CountError ℤ × List ApiRequest
  unfolding send
  fetch_count site path log = send_parsed site.token (w.parse (count_url site.url path)) log

-- `Detail`, as values
pub data ApiDetail : Type 0 where
  primary_count secondary_count : Text → CountError → ApiDetail
  api_drift : Text → ℤ → ℤ → ApiDetail

pub record ApiTally : Type 0 where
  pub drifts : ℕ
  pub remaining : ℕ
  pub details : List ApiDetail

unfoldable pub same_count : ℤ → ℤ → Bool
same_count (pos a) (pos b) = a == b
same_count (negsuc a) (negsuc b) = a == b
same_count (pos a) (negsuc b) = false
same_count (negsuc a) (pos b) = false

-- The verdict on an endpoint, by the two outcomes of `fetchCount`.
unfoldable pub note_counts : Text → Result CountError ℤ → Result CountError ℤ → ApiTally → ApiTally
unfolding same_count
note_counts label (err e) s t = record t {
  remaining = suc t.remaining;
  details = t.details ++ primary_count label e ∷ [];
}
note_counts label (ok p) (err e) t = record t {
  remaining = suc t.remaining;
  details = t.details ++ secondary_count label e ∷ [];
}
note_counts label (ok p) (ok s) t = if same_count p s then t else record {
  drifts = suc t.drifts;
  remaining = suc t.remaining;
  details = t.details ++ api_drift label p s ∷ [];
}

-- `endpoints`, whose labels are the paths
abbrev pub endpoints : List Text
endpoints =
    codes "projects" ∷ codes "users" ∷ codes "groups" ∷ codes "issues" ∷ codes "merge_requests" ∷ []

-- `Result`
pub record ApiOutcome : Type 0 where
  pub in_sync : Bool
  pub remaining : ℕ
  pub details : List ApiDetail

abbrev pub api_outcome : ApiTally → ApiOutcome
api_outcome t = record { in_sync = t.drifts == 0; remaining = t.remaining; details = t.details }

module _ (w : ApiWorld) (primary secondary : ApiSite) where
  -- Both counts of an endpoint; the secondary is not asked if the primary gives none.
  abbrev pub then_secondary :
      Text
      → Result CountError ℤ × List ApiRequest
      → Result CountError ℤ × Result CountError ℤ × List ApiRequest
  then_secondary path (err e, log) = (err e, err e, log)
  then_secondary path (ok p, log) =
      let (s, log') = fetch_count w secondary path log in (ok p, s, log')

  unfoldable pub both_counts :
      Text → List ApiRequest → Result CountError ℤ × Result CountError ℤ × List ApiRequest
  unfolding fetch_count
  both_counts path log = then_secondary path (fetch_count w primary path log)

  -- The loop over the endpoints.
  unfoldable pub compare_endpoints :
      List Text → ApiTally → List ApiRequest → ApiTally × List ApiRequest
  unfolding both_counts note_counts
  compare_endpoints [] t log = (t, log)
  compare_endpoints (path ∷ paths) t log =
      let (p, s, log') = both_counts path log in
      compare_endpoints paths (note_counts path p s t) log'

  -- `Reconcile`
  unfoldable pub reconcile_api : List ApiRequest → ApiOutcome × List ApiRequest
  unfolding compare_endpoints
  reconcile_api log =
      let (t, log') =
        compare_endpoints endpoints (record { drifts = 0; remaining = 0; details = [] }) log in
      (api_outcome t, log')

-- `strings.TrimSuffix(s, "/")`
unfoldable pub trim_slash : Text → Text
trim_slash [] = []
trim_slash (c ∷ []) = if c == b'/' then [] else c ∷ []
trim_slash (c ∷ d ∷ s) = c ∷ trim_slash (d ∷ s)

-- `New`, for the URL and the token of a site
unfoldable pub api_site : Text → Text → ApiSite
unfolding trim_slash
api_site external_url token = record {
  url = trim_slash external_url ++ codes "/api/v4";
  token = token;
}
