-- ===== src/Registry/Header.antt =====
-- registry/auth.go, `parseChallenge`: it reads the header of a registry back.
use mathlib.Core.List.{append_assoc, append-nil}
use syncctl.Base.{
  true, false, ◌&&◌, some, List, [], ◌∷◌, ◌++◌, ◌≡◌, ◌≢◌, refl, ap, ◌∙◌, arith, Text, codes,
  is_empty, length, drop,
}
use syncctl.Base.Strings.{cut, trim_space}
use syncctl.Base.Strings.Laws.{avoids, cut-avoids, trim_space-ends, visible}
use syncctl.Registry.Runes.{written, is_utf8, written-utf8}
use syncctl.Registry.Challenge.{
  Challenge, split_from, split_params, trim_quotes, assign, read_part, read_parts, no_challenge,
  bearer, parse_challenge, with_realm,
}
use syncctl.Registry.Unquoting.{trim_quotes-quoted}

-- Within quotes every other character is kept, the comma too.
split_from-quoted :
    (v current rest : Text)
    → avoids b'"' v ≡ true
    → split_from true current (v ++ (b'"' ∷ rest))
      ≡ split_from false (current ++ (v ++ b'"' ∷ [])) rest
unfolding split_from
split_from-quoted [] current rest h = refl
split_from-quoted (c ∷ v) current rest h = ground (
  arith,
  split_from-quoted v (current ++ c ∷ []) rest,
  append_assoc current (c ∷ []) (v ++ b'"' ∷ []),
)

-- A key ends nothing.
split_from-plain :
    (k current rest : Text)
    → (avoids b'"' k && avoids b',' k) ≡ true
    → split_from false current (k ++ rest) ≡ split_from false (current ++ k) rest
unfolding split_from
split_from-plain [] current rest h = rw (append-nil current)
split_from-plain (c ∷ k) current rest h =
    ground (arith, split_from-plain k (current ++ c ∷ []) rest, append_assoc current (c ∷ []) k)

-- A parameter as a registry writes it.
abbrev pub param : Text → Text → Text
param key value = key ++ (b'=' ∷ (b'"' ∷ (value ++ b'"' ∷ [])))

split_from-opening :
    (k s : Text)
    → split_from false k (b'=' ∷ (b'"' ∷ s)) ≡ split_from true ((k ++ b'=' ∷ []) ++ b'"' ∷ []) s
unfolding split_from
split_from-opening k s = refl

split_from-param :
    (k v rest : Text)
    → (avoids b'"' k && avoids b',' k) ≡ true
    → avoids b'"' v ≡ true
    → split_from false [] (k ++ (b'=' ∷ (b'"' ∷ (v ++ (b'"' ∷ rest)))))
      ≡ split_from false (param k v) rest
split_from-param k v rest hk hv =
    split_from-plain k [] (b'=' ∷ (b'"' ∷ (v ++ (b'"' ∷ rest)))) hk
    ∙ split_from-opening k (v ++ (b'"' ∷ rest))
    ∙ split_from-quoted v ((k ++ b'=' ∷ []) ++ b'"' ∷ []) rest hv
    ∙ ap (λ t. split_from false t rest)
        (append_assoc (k ++ b'=' ∷ []) (b'"' ∷ []) (v ++ b'"' ∷ [])
          ∙ append_assoc k (b'=' ∷ []) (b'"' ∷ (v ++ b'"' ∷ [])))

read_part_lem :
    (key value : Text) (c : Challenge)
    → read_part (some (key, value)) c ≡ assign (trim_space key) (trim_quotes (trim_space value)) c
unfolding read_part
read_part_lem key value c = refl

read_part-param :
    (k v : Text) (c : Challenge)
    → avoids b'=' k ≡ true
    → trim_space k ≡ k
    → avoids b'"' v ≡ true
    → read_part (cut (param k v) b'=') c ≡ assign k v c
unfolding visible
read_part-param k v c hk trimmed hv =
    rw
      (
        cut-avoids k (b'"' ∷ (v ++ b'"' ∷ [])) b'=' hk,
        read_part_lem,
        trimmed,
        trim_space-ends b'"' v b'"' refl refl,
        trim_quotes-quoted v hv,
      )
      refl

split_params_lem : (s : Text) → split_params s ≡ split_from false [] (written 0 s)
unfolding split_params
split_params_lem s = refl

read_parts_cons :
    (k v : Text) (parts : List Text) (c : Challenge)
    → avoids b'=' k ≡ true
    → trim_space k ≡ k
    → avoids b'"' v ≡ true
    → read_parts (param k v ∷ parts) c ≡ read_parts parts (assign k v c)
read_parts_cons k v parts c hk trimmed hv =
    first ∙ ap (read_parts parts) (read_part-param k v c hk trimmed hv)
  where
    first : read_parts (param k v ∷ parts) c ≡ read_parts parts (read_part (cut (param k v) b'=') c)
    first = unfold read_parts in refl

parse_challenge_lem :
    (s : Text)
    → parse_challenge (bearer ++ s) ≡ with_realm (read_parts (split_params s) no_challenge)
unfolding parse_challenge
parse_challenge_lem s = refl

with_realm-full : (c : Challenge) → is_empty c.realm ≡ false → with_realm c ≡ some c
with_realm-full c h = ground arith

full-ne : (s : Text) → s ≢ [] → is_empty s ≡ false
full-ne [] h = absurd (h refl)
full-ne (c ∷ s) h = refl

-- The header that a registry writes.
abbrev pub header_of : Text → Text → Text → Text
header_of realm service scope =
    bearer
    ++ (codes "realm=\""
        ++ (realm
            ++ (codes "\",service=\""
                ++ (service ++ (codes "\",scope=\"" ++ (scope ++ codes "\""))))))

ended :
    (current rest : Text)
    → split_from false current (b',' ∷ rest) ≡ current ∷ split_from false [] rest
unfolding split_from
ended current rest = refl

ended_last : (k v : Text) → split_from false (param k v) [] ≡ param k v ∷ []
unfolding split_from
ended_last [] v = refl
ended_last (c ∷ k) v = refl

quote_written : written 0 (codes "\"") ≡ codes "\""
unfolding written
quote_written = refl

module _ (realm service scope : Text) (hr : avoids b'"' realm ≡ true)
    (hs : avoids b'"' service ≡ true) (hc : avoids b'"' scope ≡ true) (ur : is_utf8 0 realm ≡ true)
    (us : is_utf8 0 service ≡ true) (uc : is_utf8 0 scope ≡ true) where
  -- A header of whole runes is written as it is.
  written-header :
      written 0 (drop (length bearer) (header_of realm service scope))
      ≡ drop (length bearer) (header_of realm service scope)
  unfolding is_utf8
  written-header =
      written-utf8 0 (codes "realm=\"") _ refl
      ∙ ap (λ t. codes "realm=\"" ++ t)
          (written-utf8 0 realm _ ur
            ∙ ap (λ t. realm ++ t)
                (written-utf8 0 (codes "\",service=\"") _ refl
                  ∙ ap (λ t. codes "\",service=\"" ++ t)
                      (written-utf8 0 service _ us
                        ∙ ap (λ t. service ++ t)
                            (written-utf8 0 (codes "\",scope=\"") _ refl
                              ∙ ap (λ t. codes "\",scope=\"" ++ t)
                                  (written-utf8 0 scope _ uc
                                    ∙ ap (λ t. scope ++ t) quote_written)))))

  abbrev parameters : List Text
  parameters =
      param (codes "realm") realm
      ∷ param (codes "service") service
      ∷ param (codes "scope") scope
      ∷ []

  split_params-header :
      split_params (drop (length bearer) (header_of realm service scope)) ≡ parameters
  split_params-header =
      let scope_part = codes ",scope=\"" ++ (scope ++ codes "\"") in
      let service_part = codes ",service=\"" ++ (service ++ (b'"' ∷ scope_part)) in
      split_params_lem (codes "realm=\"" ++ (realm ++ (b'"' ∷ service_part)))
      ∙ ap (split_from false []) written-header
      ∙ split_from-param (codes "realm") realm service_part refl hr
      ∙ ended (param (codes "realm") realm) (drop 1 service_part)
      ∙ ap (λ ws. param (codes "realm") realm ∷ ws)
          (split_from-param (codes "service") service scope_part refl hs
            ∙ ended (param (codes "service") service) (drop 1 scope_part)
            ∙ ap (λ ws. param (codes "service") service ∷ ws)
                (split_from-param (codes "scope") scope [] refl hc
                  ∙ ended_last (codes "scope") scope))

  read_parts-parameters :
      read_parts parameters no_challenge
      ≡ record { realm = realm; service = service; scope = scope }
  read_parts-parameters =
      read_parts_cons (codes "realm") realm _ no_challenge refl (unfold trim_space in refl) hr
      ∙ read_parts_cons (codes "service") service _ _ refl (unfold trim_space in refl) hs
      ∙ read_parts_cons (codes "scope") scope [] _ refl (unfold trim_space in refl) hc
      ∙ (unfold read_parts assign in refl)

  -- A header of the three parameters is read back as they are, if the realm is given, none of them
  -- holds a double quote, and each is UTF-8.
  pub parse_challenge-header :
      realm ≢ []
      → parse_challenge (header_of realm service scope)
        ≡ some (record { realm = realm; service = service; scope = scope })
  parse_challenge-header full =
      parse_challenge_lem (drop (length bearer) (header_of realm service scope))
      ∙ ap (λ ws. with_realm (read_parts ws no_challenge)) split_params-header
      ∙ ap with_realm read_parts-parameters
      ∙ with_realm-full (record { realm = realm; service = service; scope = scope })
          (full-ne realm full)
