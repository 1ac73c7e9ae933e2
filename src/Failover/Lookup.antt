-- ===== src/Failover/Lookup.antt =====
-- failover.go, `findSecondary`, on configurations that config.go has validated.
use mathlib.Core.Path.{subst}
use syncctl.Base.{
  false, Option, some, List, [], ◌∷◌, ◌++◌, any, ◌≡◌, refl, sym, inl, inr, arith, Text, text_eq,
  text_eq_iff, text_eq_refl, Bool-cases,
}
use syncctl.Base.Result.{ok}
use syncctl.Config.Types.{Config, SiteConfig}
use syncctl.Config.Validate.Sound.{AreSecondaries, also, validate-IsValid}
use syncctl.Config.Validate.{Url, validate}
use syncctl.Failover.Targets.{find_site, find_secondary}

text_eq_sym : (a b : Text) → text_eq a b ≡ false → text_eq b a ≡ false
text_eq_sym a b h = elim (Bool-cases (text_eq b a)) [
  | inr other ↦ other
  | inl same ↦
      let eq : a ≡ b = sym ((text_eq_iff b a).0 same) in let same' = (text_eq_iff a b).1 eq in cc
]

-- A secondary further on has none of the names before it.
name_new-later :
    (seen : List Text) (before : List SiteConfig) (s : SiteConfig) (after : List SiteConfig)
    → AreSecondaries seen (before ++ s ∷ after)
    → any (text_eq s.name) seen ≡ false
name_new-later seen [] s after (also h rest) = h.name_new
name_new-later seen (t ∷ before) s after (also h rest) =
    let later = name_new-later (t.name ∷ seen) before s after rest in ground arith

find_site-listed :
    (seen : List Text) (before : List SiteConfig) (s : SiteConfig) (after : List SiteConfig)
    → AreSecondaries seen (before ++ s ∷ after)
    → find_site (before ++ s ∷ after) s.name ≡ some s
unfolding find_site
find_site-listed seen [] s after h = rw (text_eq_refl s.name) refl
find_site-listed seen (t ∷ before) s after (also h rest) =
    let later = name_new-later (t.name ∷ seen) before s after rest in
    let other : text_eq s.name t.name ≡ false = ground arith in
    rw (text_eq_sym s.name t.name other) (find_site-listed (t.name ∷ seen) before s after rest)

find_secondary-found :
    (cfg : Config) (name : Text) {s : SiteConfig}
    → find_site cfg.secondaries name ≡ some s
    → find_secondary cfg name ≡ ok s
unfolding find_secondary
find_secondary-found cfg name h = rw (h, find_secondary) refl

-- In a configuration that `validate` finds no error in, each secondary is the one that is found
-- by its name, so that a promotion acts on the site that the operator names.
pub find_secondary-listed :
    (parse_url : Text → Option Url) (cfg : Config)
    → (validate parse_url cfg).0 ≡ []
    → (before : List SiteConfig) (s : SiteConfig) (after : List SiteConfig)
    → cfg.secondaries ≡ before ++ s ∷ after
    → find_secondary cfg s.name ≡ ok s
find_secondary-listed parse_url cfg fine before s after listed =
    let all_fine = (validate-IsValid parse_url cfg fine).secondaries_fine in
    find_secondary-found cfg s.name
      (rw listed (find_site-listed [] before s after (subst (AreSecondaries []) listed all_fine)))
