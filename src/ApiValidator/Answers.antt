-- ===== src/ApiValidator/Answers.antt =====
-- apivalidator/reconciler.go, `fetchCount`: what a count is, by the answers of the site.
use syncctl.Base.{
  ℕ, zero, suc, Option, none, some, List, [], ◌∷◌, ◌++◌, ==_iff, ◌≡◌, ◌≢◌, ◌==◌, inl, inr, refl, ap,
  ◌∙◌, Text, Bool-cases,
}
use syncctl.Base.Int.{ℤ}
use syncctl.Base.Result.{Result, ok, err}
use syncctl.ApiValidator.{
  too_many_redirects, request_failed, no_total, bad_status, bad_url, with_total, read_count,
  ApiRequest, ApiReply, no_reply, redirected, replied, get_with, most_requests, after_reply,
  send_parsed, ApiWorld, ApiSite, CountError, send, fetch_count, count_url,
}

module _ (w : ApiWorld) where
  -- What a count is, by the answers: that of the site, or where it redirects, if its status is 200 and it
  -- gives a number.
  pub data Answered (token : Text)
      : ℕ → Text → List ApiRequest → Result CountError ℤ → List ApiRequest → Type 0 where
    given_up :
        {url : Text} {log : List ApiRequest} → Answered token 0 url log (err too_many_redirects) log
    lost :
        {n : ℕ} {url : Text} {log : List ApiRequest}
        → w.reply log (get_with token url) ≡ no_reply
        → Answered token (suc n) url log (err request_failed) (log ++ get_with token url ∷ [])
    sent_on :
        {n : ℕ} {url : Text} {log log' : List ApiRequest} {r : Result CountError ℤ} (to : Text)
        → w.reply log (get_with token url) ≡ redirected to
        → Answered token n to (log ++ get_with token url ∷ []) r log'
        → Answered token (suc n) url log r log'
    read :
        {n : ℕ} {url : Text} {log : List ApiRequest} (v : ℤ)
        → w.reply log (get_with token url) ≡ replied 200 (some v)
        → Answered token (suc n) url log (ok v) (log ++ get_with token url ∷ [])
    untold :
        {n : ℕ} {url : Text} {log : List ApiRequest}
        → w.reply log (get_with token url) ≡ replied 200 none
        → Answered token (suc n) url log (err no_total) (log ++ get_with token url ∷ [])
    refused :
        {n : ℕ} {url : Text} {log : List ApiRequest} (status : ℕ) (total : Option ℤ)
        → w.reply log (get_with token url) ≡ replied status total
        → status ≢ 200
        → Answered token (suc n) url log (err (bad_status status)) (log ++ get_with token url ∷ [])

  pub data CountOf (site : ApiSite) (path : Text)
      : List ApiRequest → Result CountError ℤ → List ApiRequest → Type 0 where
    unparsed :
        {log : List ApiRequest}
        → w.parse (count_url site.url path) ≡ none
        → CountOf site path log (err bad_url) log
    parsed :
        {log log' : List ApiRequest} {r : Result CountError ℤ} (url : Text)
        → w.parse (count_url site.url path) ≡ some url
        → Answered site.token most_requests url log r log'
        → CountOf site path log r log'

  read_count-Answered :
      (n : ℕ) (token url : Text) (log : List ApiRequest) (status : ℕ) (total : Option ℤ)
      → w.reply log (get_with token url) ≡ replied status total
      → Answered token (suc n) url log (read_count status total) (log ++ get_with token url ∷ [])
  unfolding read_count
  read_count-Answered n token url log status total e = elim (Bool-cases (status == 200)) [
    | inr bad ↦ rw bad (refused status total e (λ h. let same = (==_iff status 200).1 h in cc))
    | inl fine ↦
        rw fine (total-Answered total (e ∙ ap (λ k. replied k total) ((==_iff status 200).0 fine)))
  ]
    where
      total-Answered :
          (t : Option ℤ)
          → w.reply log (get_with token url) ≡ replied 200 t
          → Answered token (suc n) url log (with_total t) (log ++ get_with token url ∷ [])
      total-Answered none h = untold h
      total-Answered (some v) h = read v h

  after_reply-Answered :
      (n : ℕ) (token url : Text) (log : List ApiRequest)
      (follow : Text → Result CountError ℤ × List ApiRequest) (r : ApiReply)
      → w.reply log (get_with token url) ≡ r
      → ((to : Text)
          → Answered token n to (log ++ get_with token url ∷ []) (follow to).0 (follow to).1)
      → Answered token
          (suc n)
          url
          log
          (after_reply follow r (log ++ get_with token url ∷ [])).0
          (after_reply follow r (log ++ get_with token url ∷ [])).1
  unfolding after_reply
  after_reply-Answered n token url log follow no_reply e k = lost e
  after_reply-Answered n token url log follow (redirected to) e k = sent_on to e (k to)
  after_reply-Answered n token url log follow (replied status total) e k =
      read_count-Answered n token url log status total e

  send-Answered :
      (n : ℕ) (token url : Text) (log : List ApiRequest)
      → Answered token n url log (send w n token url log).0 (send w n token url log).1
  unfolding send
  send-Answered zero token url log = given_up
  send-Answered (suc n) token url log =
      after_reply-Answered n token url log _ (w.reply log (get_with token url)) refl
        (λ to. send-Answered n token to (log ++ get_with token url ∷ []))

  send_parsed-CountOf :
      (site : ApiSite) (path : Text) (o : Option Text) (log : List ApiRequest)
      → w.parse (count_url site.url path) ≡ o
      → CountOf site path log (send_parsed w site.token o log).0 (send_parsed w site.token o log).1
  send_parsed-CountOf site path none log e = unparsed e
  send_parsed-CountOf site path (some url) log e =
      parsed url e (send-Answered most_requests site.token url log)

  pub fetch_count-CountOf :
      (site : ApiSite) (path : Text) (log : List ApiRequest)
      → CountOf site path log (fetch_count w site path log).0 (fetch_count w site path log).1
  unfolding fetch_count
  fetch_count-CountOf site path log = send_parsed-CountOf site path _ log refl
