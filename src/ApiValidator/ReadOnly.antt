-- ===== src/ApiValidator/ReadOnly.antt =====
-- apivalidator/reconciler.go: what a run sends, and its verdict.
use mathlib.Core.List.{append-nil, append_assoc}
use syncctl.Base.{
  ℕ, zero, suc, ◌+◌, true, Option, none, some, List, [], ◌∷◌, ◌++◌, ==_iff, All, All-append, ◌≡◌,
  ◌↔◌, ◌⊎◌, inl, inr, refl, sym, ap, ◌∙◌, arith, Text,
}
use syncctl.Base.Int.{ℤ}
use syncctl.Base.Result.{Result, ok, err}
use syncctl.ApiValidator.{
  ApiRequest, ApiReply, no_reply, redirected, replied, get_with, most_requests, after_reply,
  send_parsed, ApiWorld, ApiSite, CountError, send, fetch_count, count_url, ApiTally, note_counts,
  endpoints, ApiOutcome, then_secondary, both_counts, compare_endpoints, reconcile_api,
}
use syncctl.ApiValidator.Answers.{CountOf, fetch_count-CountOf}
use syncctl.ApiValidator.Agreement.{Agree, drift_of, unread, sum_of, sum_of_none, note_counts_lem}

-- A GET for a count of a site, with its token: at the URL of the site, or where the answer to such a
-- request redirects.
pub data IsCount (w : ApiWorld) (site : ApiSite) : ApiRequest → Type 0 where
  at_site :
      (path url : Text)
      → w.parse (count_url site.url path) ≡ some url
      → IsCount w site (get_with site.token url)
  behind_redirect :
      (log : List ApiRequest) (from : ApiRequest) (url : Text)
      → IsCount w site from
      → w.reply log from ≡ redirected url
      → IsCount w site (get_with site.token url)

module _ (w : ApiWorld) (primary secondary : ApiSite) where
  abbrev Own : ApiRequest → Type 0
  Own q = IsCount w primary q ⊎ IsCount w secondary q

  -- The requests that a part of the run adds.
  pub record Asks (log log' : List ApiRequest) : Type 0 where
    pub sent : List ApiRequest
    pub appended : log' ≡ log ++ sent
    pub own : All Own sent

  Asks-nothing : (log : List ApiRequest) → Asks log log
  Asks-nothing log = record { sent = []; appended = sym (append-nil log); own = tt }

  Asks-trans : {a b c : List ApiRequest} → Asks a b → Asks b c → Asks a c
  Asks-trans {a} x y = record {
    sent = x.sent ++ y.sent;
    appended = y.appended ∙ ap (λ l. l ++ y.sent) x.appended ∙ append_assoc a x.sent y.sent;
    own = All-append Own x.sent y.sent x.own y.own;
  }

  -- A request of a site and what follows it.
  after_reply-Asks :
      (follow : Text → Result CountError ℤ × List ApiRequest) (r : ApiReply)
      (log log' : List ApiRequest)
      → Asks log log'
      → ((to : Text) → r ≡ redirected to → Asks log (follow to).1)
      → Asks log (after_reply follow r log').1
  unfolding after_reply
  after_reply-Asks follow no_reply log log' h k = h
  after_reply-Asks follow (redirected url) log log' h k = k url refl
  after_reply-Asks follow (replied status total) log log' h k = h

  send-Asks :
      (site : ApiSite) (n : ℕ) (url : Text) (log : List ApiRequest)
      → IsCount w site (get_with site.token url)
      → ((q : ApiRequest) → IsCount w site q → Own q)
      → Asks log (send w n site.token url log).1
  unfolding send
  send-Asks site zero url log is k = Asks-nothing log
  send-Asks site (suc n) url log is k =
      let q = get_with site.token url in
      let sent : Asks log (log ++ q ∷ []) = record {
        sent = q ∷ [];
        appended = refl;
        own = (k q is, tt);
      } in
      after_reply-Asks _ (w.reply log q) log (log ++ q ∷ []) sent (λ to e.
        Asks-trans sent (send-Asks site n to (log ++ q ∷ []) (behind_redirect log q to is e) k))

  send_parsed-Asks :
      (site : ApiSite) (path : Text) (url : Option Text) (log : List ApiRequest)
      → w.parse (count_url site.url path) ≡ url
      → ((q : ApiRequest) → IsCount w site q → Own q)
      → Asks log (send_parsed w site.token url log).1
  send_parsed-Asks site path none log e k = Asks-nothing log
  send_parsed-Asks site path (some url) log e k =
      send-Asks site most_requests url log (at_site path url e) k

  fetch_count-Asks :
      (site : ApiSite) (path : Text) (log : List ApiRequest)
      → ((q : ApiRequest) → IsCount w site q → Own q)
      → Asks log (fetch_count w site path log).1
  unfolding fetch_count
  fetch_count-Asks site path log k = send_parsed-Asks site path _ log refl k

  then_secondary-Asks :
      (path : Text) (log : List ApiRequest) (first : Result CountError ℤ × List ApiRequest)
      → Asks log first.1
      → Asks log (then_secondary w primary secondary path first).2
  then_secondary-Asks path log (err e, log') h = h
  then_secondary-Asks path log (ok p, log') h =
      Asks-trans h (fetch_count-Asks secondary path log' (λ q c. inr c))

  both_counts-Asks :
      (path : Text) (log : List ApiRequest) → Asks log (both_counts w primary secondary path log).2
  unfolding both_counts
  both_counts-Asks path log =
      then_secondary-Asks path log (fetch_count w primary path log)
        (fetch_count-Asks primary path log (λ q c. inl c))

  -- The two counts of each endpoint, in their order; the secondary is not asked behind a failure of the
  -- primary.
  pub data Counts
      : List ApiRequest
        → List Text
        → List (Result CountError ℤ × Result CountError ℤ)
        → List ApiRequest
        → Type 0 where
    no_endpoint : {log : List ApiRequest} → Counts log [] [] log
    primary_only :
        {path : Text} {paths : List Text} {log l1 log' : List ApiRequest}
        {counts : List (Result CountError ℤ × Result CountError ℤ)} (e : CountError)
        → CountOf w primary path log (err e) l1
        → Counts l1 paths counts log'
        → Counts log (path ∷ paths) ((err e, err e) ∷ counts) log'
    both_asked :
        {path : Text} {paths : List Text} {log l1 l2 log' : List ApiRequest}
        {counts : List (Result CountError ℤ × Result CountError ℤ)} (p : ℤ)
        (s : Result CountError ℤ)
        → CountOf w primary path log (ok p) l1
        → CountOf w secondary path l1 s l2
        → Counts l2 paths counts log'
        → Counts log (path ∷ paths) ((ok p, s) ∷ counts) log'

  -- One more endpoint before others.
  then_secondary-Counts :
      (path : Text) (paths : List Text) (log log' : List ApiRequest)
      (counts : List (Result CountError ℤ × Result CountError ℤ))
      (first : Result CountError ℤ × List ApiRequest)
      → CountOf w primary path log first.0 first.1
      → Counts (then_secondary w primary secondary path first).2 paths counts log'
      → Counts log
          (path ∷ paths)
          ((
            (then_secondary w primary secondary path first).0,
            (then_secondary w primary secondary path first).1,
          )
            ∷ counts)
          log'
  then_secondary-Counts path paths log log' counts (err e, l1) h k = primary_only e h k
  then_secondary-Counts path paths log log' counts (ok p, l1) h k =
      both_asked p _ h (fetch_count-CountOf w secondary path l1) k

  both_counts-Counts :
      (path : Text) (paths : List Text) (log log' : List ApiRequest)
      (counts : List (Result CountError ℤ × Result CountError ℤ))
      → Counts (both_counts w primary secondary path log).2 paths counts log'
      → Counts log
          (path ∷ paths)
          ((
            (both_counts w primary secondary path log).0,
            (both_counts w primary secondary path log).1,
          )
            ∷ counts)
          log'
  unfolding both_counts
  both_counts-Counts path paths log log' counts k =
      then_secondary-Counts path paths log log' counts (fetch_count w primary path log)
        (fetch_count-CountOf w primary path log) k

  record Compared (paths : List Text) (t : ApiTally) (log : List ApiRequest)
      (out : ApiTally × List ApiRequest) : Type 0 where
    counts : List (Result CountError ℤ × Result CountError ℤ)
    trace : Counts log paths counts out.1
    asks : Asks log out.1
    drifts : out.0.drifts ≡ t.drifts + sum_of drift_of counts
    remaining : out.0.remaining ≡ t.remaining + (sum_of drift_of counts + sum_of unread counts)

  compare_endpoints-Compared :
      (paths : List Text) (t : ApiTally) (log : List ApiRequest)
      → Compared paths t log (compare_endpoints w primary secondary paths t log)
  unfolding compare_endpoints
  compare_endpoints-Compared [] t log = record {
    counts = [];
    trace = no_endpoint;
    asks = Asks-nothing log;
    drifts = omega arith;
    remaining = omega arith;
  }
  compare_endpoints-Compared (path ∷ paths) t log =
      let b = both_counts w primary secondary path log in
      let c = compare_endpoints-Compared paths (note_counts path b.0 b.1 t) b.2 in
      let (d, r) = note_counts_lem path b.0 b.1 t in
      record {
        counts = (b.0, b.1) ∷ c.counts;
        trace = both_counts-Counts path paths log _ c.counts c.trace;
        asks = Asks-trans (both_counts-Asks path log) c.asks;
        drifts = omega (arith, c.drifts, d);
        remaining = omega (arith, c.remaining, r);
      }

  pub record Validated (log : List ApiRequest) (out : ApiOutcome × List ApiRequest) : Type 0 where
    pub counts : List (Result CountError ℤ × Result CountError ℤ)
    pub trace : Counts log endpoints counts out.1
    pub asks : Asks log out.1
    pub in_sync : (out.0.in_sync ≡ true) ↔ All Agree counts
    pub remaining : out.0.remaining ≡ sum_of drift_of counts + sum_of unread counts

  -- Every request of a run is a GET for a count of a site and carries the token of that site. It goes to
  -- the URL of the site, or where the answer to such a request redirects, which may be any host. The run is in
  -- sync exactly if no endpoint has two counts that differ; what remains counts these endpoints and
  -- those of which a count could not be read.
  pub reconcile_api-Validated :
      (log : List ApiRequest) → Validated log (reconcile_api w primary secondary log)
  unfolding reconcile_api
  reconcile_api-Validated log =
      let c =
        compare_endpoints-Compared endpoints (record { drifts = 0; remaining = 0; details = [] })
          log in
      record {
        counts = c.counts;
        trace = c.trace;
        asks = c.asks;
        in_sync = (
          λ e. let z = (==_iff _ 0).0 e in (sum_of_none c.counts).0 (omega (arith, c.drifts)),
          λ h. (==_iff _ 0).1 (omega (arith, c.drifts, (sum_of_none c.counts).1 h)),
        );
        remaining = omega (arith, c.remaining);
      }
