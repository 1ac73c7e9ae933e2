-- ===== src/Dbkey/Mismatch.antt =====
-- dbkey.go: what was read where the two keys differ.
use syncctl.Base.{
  true, false, Option, none, some, ◌≡◌, ◌≢◌, refl, ap, ◌∙◌, inl, inr, Text, text_eq_iff, Bool-cases,
}
use syncctl.Base.Result.{Result, ok, err}
use syncctl.Base.Strings.{trim_space}
use syncctl.Effects.{Log, World, SshError, Runner, go_on, wrap_result}
use syncctl.Ssh.{HostError, check_host}
use syncctl.Dbkey.{
  KeyError, key_ssh, primary_key, secondary_key, key_mismatch, fetch_command, find_key, fetch_key,
  check_keys, try_fetch_key, fetch_plain, retry_plain, fetch_text, key_of, fetch_checked,
  compare_keys,
}

-- A success of a sequence is one of each of its parts.
wrap_result-ok :
    {E F A : Type 0} (f : E → F) (r : Result E A × Log) (a : A) (l : Log)
    → wrap_result f r ≡ (ok a, l)
    → r ≡ (ok a, l)
wrap_result-ok f (ok b, l') a l h = cc
wrap_result-ok f (err e, l') a l h = cc

go_on-ok :
    {E A B : Type 0} (r : Result E A × Log) (k : A → Log → Result E B × Log) (b : B) (l : Log)
    → go_on r k ≡ (ok b, l)
    → (a : A) × (l1 : Log) × (r ≡ (ok a, l1)) × (k a l1 ≡ (ok b, l))
go_on-ok (ok a, l1) k b l h = (a, l1, refl, h)
go_on-ok (err e, l1) k b l h = cc

module _ (w : World) (runner : Runner) where
  -- What a host prints for the command with sudo, or, where that fails and the context is not done, for
  -- the one without.
  pub data Printed (host : Text) (l : Log) : Text → Log → Type 0 where
    with_sudo :
        (text : Text) (l' : Log)
        → runner host (fetch_command true) l ≡ (ok text, l')
        → Printed host l text l'
    without_sudo :
        (e : SshError) (l1 : Log) (text : Text) (l' : Log)
        → runner host (fetch_command true) l ≡ (err e, l1)
        → w.cancelled l1 ≡ false
        → runner host (fetch_command false) l1 ≡ (ok text, l')
        → Printed host l text l'

  -- A key that was found in what a host printed.
  pub record KeyRead (host : Text) (l : Log) (key : Text) (l' : Log) : Type 0 where
    pub text : Text
    pub printed : Printed host l text l'
    pub captured : Text
    pub found : find_key text ≡ some captured
    pub trimmed : key ≡ trim_space captured

  -- Both keys were read, one behind the other, and they are not the same.
  pub record Mismatch (primary secondary : Text) (l : Log) : Type 0 where
    pub p : Text
    pub s : Text
    pub between : Log
    pub behind : Log
    pub first : KeyRead primary l p between
    pub second : KeyRead secondary between s behind
    pub differ : p ≢ s

  plain-Printed :
      (host : Text) (l l1 : Log) (e : SshError) (text : Text) (l' : Log)
      → runner host (fetch_command true) l ≡ (err e, l1)
      → fetch_plain w runner host l1 ≡ (ok text, l')
      → Printed host l text l'
  unfolding fetch_plain try_fetch_key
  plain-Printed host l l1 e text l' h k = elim (Bool-cases (w.cancelled l1)) [
    | inl done ↦ let k' = rw done at k in cc
    | inr going ↦
        without_sudo e l1 text l' h going (wrap_result-ok (key_ssh host) _ text l' (rw going at k))
  ]

  text-Printed :
      (host : Text) (l : Log) (r : Result SshError Text × Log) (text : Text) (l' : Log)
      → runner host (fetch_command true) l ≡ r
      → retry_plain w runner host r ≡ (ok text, l')
      → Printed host l text l'
  unfolding retry_plain
  text-Printed host l (ok t, l1) text l' h k =
      let same : ◌≡◌ {A = Result SshError Text × Log} (ok t, l1) (ok text, l') = cc in
      with_sudo text l' (h ∙ same)
  text-Printed host l (err e, l1) text l' h k = plain-Printed host l l1 e text l' h k

  key_of-found :
      (host : Text) (o : Option Text) (l : Log) (key : Text) (l' : Log)
      → key_of w runner host o l ≡ (ok key, l')
      → (captured : Text) × (o ≡ some captured) × (key ≡ trim_space captured) × (l ≡ l')
  unfolding key_of
  key_of-found host none l key l' h = cc
  key_of-found host (some c) l key l' h = (c, refl, cc, cc)

  fetch_checked-KeyRead :
      (host : Text) (r : Result HostError (Unit {0})) (l : Log) (key : Text) (l' : Log)
      → fetch_checked w runner host r l ≡ (ok key, l')
      → KeyRead host l key l'
  unfolding fetch_checked fetch_text try_fetch_key
  fetch_checked-KeyRead host (err e) l key l' h = cc
  fetch_checked-KeyRead host (ok _) l key l' h =
      let (text, l1, read, rest) = go_on-ok (fetch_text w runner host l) _ key l' h in
      let (captured, found, trimmed, same) = key_of-found host (find_key text) l1 key l' rest in
      record {
        text = text;
        printed =
            text-Printed host l (runner host (fetch_command true) l) text l' refl
              (read ∙ ap (λ x. (ok text, x)) same);
        captured = captured;
        found = found;
        trimmed = trimmed;
      }

  fetch_key-KeyRead :
      (host : Text) (l : Log) (key : Text) (l' : Log)
      → fetch_key w runner host l ≡ (ok key, l')
      → KeyRead host l key l'
  unfolding fetch_key
  fetch_key-KeyRead host = fetch_checked-KeyRead host (check_host host)

  compare_keys-differ :
      (p s : Text) (l : Log) → (compare_keys w runner p s l).0 ≡ err key_mismatch → p ≢ s
  unfolding compare_keys
  compare_keys-differ p s l h e = let same = (text_eq_iff p s).1 e in let h' = rw same at h in cc

  second-Mismatch :
      (primary secondary p : Text) (l l1 : Log) (r : Result KeyError Text × Log)
      → KeyRead primary l p l1
      → fetch_key w runner secondary l1 ≡ r
      → (go_on (wrap_result secondary_key r) (compare_keys w runner p)).0 ≡ err key_mismatch
      → Mismatch primary secondary l
  second-Mismatch primary secondary p l l1 (err e, l2) first read h = cc
  second-Mismatch primary secondary p l l1 (ok s, l2) first read h = record {
    p = p;
    s = s;
    between = l1;
    behind = l2;
    first = first;
    second = fetch_key-KeyRead secondary l1 s l2 read;
    differ = compare_keys-differ p s l2 h;
  }

  first-Mismatch :
      (primary secondary : Text) (l : Log) (r : Result KeyError Text × Log)
      → fetch_key w runner primary l ≡ r
      → (go_on (wrap_result primary_key r) (λ p l1.
          go_on
            (wrap_result secondary_key (fetch_key w runner secondary l1))
            (compare_keys w runner p))).0
        ≡ err key_mismatch
      → Mismatch primary secondary l
  first-Mismatch primary secondary l (err e, l1) read h = cc
  first-Mismatch primary secondary l (ok p, l1) read h =
      second-Mismatch primary secondary p l l1 _ (fetch_key-KeyRead primary l p l1 read) refl h

  -- The error for a mismatch is given only where both keys were read and differ.
  pub check_keys-Mismatch :
      (primary secondary : Text) (l : Log)
      → (check_keys w runner primary secondary l).0 ≡ err key_mismatch
      → Mismatch primary secondary l
  unfolding check_keys
  check_keys-Mismatch primary secondary l h = first-Mismatch primary secondary l _ refl h
