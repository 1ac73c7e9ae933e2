-- ===== src/Registry/Unquoting.antt =====
-- registry/auth.go, `parseChallenge`: the quotes around a value.
use mathlib.Core.List.{reverse, reverse-append, reverse-reverse}
use syncctl.Base.{ℕ, true, not, [], ◌∷◌, ◌++◌, ◌≡◌, ◌≢◌, refl, ap, ◌∙◌, arith, ◌==◌, Text}
use syncctl.Base.Strings.Laws.{avoids, all-reverse}
use syncctl.Registry.Challenge.{skip_quotes, trim_quotes}

skip_quotes-avoids :
    (v : Text) (rest : Text) → avoids b'"' v ≡ true → v ≢ [] → skip_quotes (v ++ rest) ≡ v ++ rest
unfolding skip_quotes
skip_quotes-avoids [] rest h full = absurd (full refl)
skip_quotes-avoids (c ∷ v) rest h full = ground arith

avoids-reverse : (c : ℕ) (s : Text) → avoids c s ≡ true → avoids c (reverse s) ≡ true
avoids-reverse c s h = all-reverse (λ d. not (d == c)) s h

skip_quotes-plain : (v : Text) → avoids b'"' v ≡ true → skip_quotes v ≡ v
unfolding skip_quotes
skip_quotes-plain [] h = refl
skip_quotes-plain (c ∷ v) h = ground arith

skip_quote_front : (s : Text) → skip_quotes (b'"' ∷ s) ≡ skip_quotes s
unfolding skip_quotes
skip_quote_front s = refl

trim_quotes_lem : (s : Text) → trim_quotes s ≡ reverse (skip_quotes (reverse (skip_quotes s)))
unfolding trim_quotes
trim_quotes_lem s = refl

-- The quotes around a value are taken away, and nothing else.
pub trim_quotes-quoted :
    (v : Text) → avoids b'"' v ≡ true → trim_quotes (b'"' ∷ (v ++ b'"' ∷ [])) ≡ v
trim_quotes-quoted [] h = unfold trim_quotes in refl
trim_quotes-quoted (c ∷ v) h =
    let text = c ∷ v in
    let front : skip_quotes (b'"' ∷ (text ++ b'"' ∷ [])) ≡ text ++ b'"' ∷ [] =
      skip_quote_front (text ++ b'"' ∷ []) ∙ skip_quotes-avoids text (b'"' ∷ []) h (λ e. cc) in
    let turned : reverse (text ++ b'"' ∷ []) ≡ b'"' ∷ reverse text =
      reverse-append text (b'"' ∷ []) in
    let back : skip_quotes (b'"' ∷ reverse text) ≡ reverse text =
      skip_quote_front (reverse text)
      ∙ skip_quotes-plain (reverse text) (avoids-reverse b'"' text h) in
    trim_quotes_lem (b'"' ∷ (text ++ b'"' ∷ []))
    ∙ ap (λ s. reverse (skip_quotes (reverse s))) front
    ∙ ap (λ s. reverse (skip_quotes s)) turned
    ∙ ap reverse back
    ∙ reverse-reverse text
