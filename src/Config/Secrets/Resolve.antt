-- ===== src/Config/Secrets/Resolve.antt =====
-- internal/config/config.go: `resolveEnv`, which expands the references in every string of a
-- configuration. It sets the strings in place; here the changed value is the result.
use syncctl.Base.{Bool, true, false, ◌&&◌, Option, List, ◌≢◌, Text}
use syncctl.Base.Result.{Result, ok, err, ◌>>=◌, >>=-eq-ok}
use syncctl.Config.Secrets.{
  Value, str, nil_pointer, pointer, slice, mapping, struct, other, Items, end, item, Fields, stop,
  field, expand_env,
}

pub data ResolveError : Type 0 where
  -- names that are not set
  missing_names : List Text → ResolveError
  -- `SetString` panics on a value that reflection cannot set
  not_settable : ResolveError

module _ (env : Text → Option Text) where
  set_string : Bool → Result (List Text) Text → Result ResolveError Value
  set_string settable (err names) = err (missing_names names)
  set_string true (ok s) = ok (str s)
  set_string false (ok s) = err not_settable

  -- What a pointer or a slice leads to can be set, a field if its struct can and it is exported, and
  -- what `MapIndex` returns cannot.
  unfoldable mutual
    unfolding set_string expand_env

    pub resolve : Bool → Value → Result ResolveError Value
    resolve settable (str s) = set_string settable (expand_env env s)
    resolve settable nil_pointer = ok nil_pointer
    resolve settable (pointer v) = do w ← resolve true v; ok (pointer w)
    resolve settable (slice vs) = do ws ← resolve_items true vs; ok (slice ws)
    resolve settable (mapping vs) = do ws ← resolve_items false vs; ok (mapping ws)
    resolve settable (struct fs) = do gs ← resolve_fields settable fs; ok (struct gs)
    resolve settable other = ok other

    resolve_items : Bool → Items → Result ResolveError Items
    resolve_items settable end = ok end
    resolve_items settable (item v vs) = do
      w ← resolve settable v
      ws ← resolve_items settable vs
      ok (item w ws)

    resolve_fields : Bool → Fields → Result ResolveError Fields
    resolve_fields settable stop = ok stop
    resolve_fields settable (field exported name required v fs) = do
      w ← resolve (settable && exported) v
      gs ← resolve_fields settable fs
      ok (field exported name required w gs)

  -- A map with a string in it, which pointers, slices and structs lead to.
  mutual
    pub data MapIn : Value → Type 0 where
      entry : {s : Text} {vs : Items} → MapIn (mapping (item (str s) vs))
      in_pointer : {v : Value} → MapIn v → MapIn (pointer v)
      in_slice : {vs : Items} → MapInItems vs → MapIn (slice vs)
      in_struct : {fs : Fields} → MapInFields fs → MapIn (struct fs)

    pub data MapInItems : Items → Type 0 where
      first : {v : Value} {vs : Items} → MapIn v → MapInItems (item v vs)
      further : {v : Value} {vs : Items} → MapInItems vs → MapInItems (item v vs)

    pub data MapInFields : Fields → Type 0 where
      within :
          {exported required : Bool} {name : Text} {v : Value} {fs : Fields}
          → MapIn v
          → MapInFields (field exported name required v fs)
      later :
          {exported required : Bool} {name : Text} {v : Value} {fs : Fields}
          → MapInFields fs
          → MapInFields (field exported name required v fs)

  set_string-fails : (r : Result (List Text) Text) {w : Value} → set_string false r ≢ ok w
  unfolding set_string
  set_string-fails (ok s) h = cc
  set_string-fails (err names) h = cc

  mutual
    unfolding resolve resolve_items resolve_fields

    resolve-fails : {v w : Value} (settable : Bool) → MapIn v → resolve settable v ≢ ok w
    resolve-fails settable (entry {s} {vs}) h =
        let (ws, items, _) = >>=-eq-ok (resolve_items false (item (str s) vs)) _ h in
        let (w, string, _) = >>=-eq-ok (resolve false (str s)) _ items in
        set_string-fails (expand_env env s) string
    resolve-fails settable (in_pointer {v} inner) h =
        let (w, is, _) = >>=-eq-ok (resolve true v) _ h in resolve-fails true inner is
    resolve-fails settable (in_slice {vs} inner) h =
        let (w, is, _) = >>=-eq-ok (resolve_items true vs) _ h in resolve_items-fails true inner is
    resolve-fails settable (in_struct {fs} inner) h =
        let (w, is, _) = >>=-eq-ok (resolve_fields settable fs) _ h in
        resolve_fields-fails settable inner is

    resolve_items-fails :
        {vs ws : Items} (settable : Bool) → MapInItems vs → resolve_items settable vs ≢ ok ws
    resolve_items-fails settable (first {v} {vs} inner) h =
        let (w, is, _) = >>=-eq-ok (resolve settable v) _ h in resolve-fails settable inner is
    resolve_items-fails settable (further {v} {vs} inner) h =
        let (w, _, rest) = >>=-eq-ok (resolve settable v) _ h in
        let (ws, is, _) = >>=-eq-ok (resolve_items settable vs) _ rest in
        resolve_items-fails settable inner is

    resolve_fields-fails :
        {fs gs : Fields} (settable : Bool) → MapInFields fs → resolve_fields settable fs ≢ ok gs
    resolve_fields-fails settable (within {exported} {required} {name} {v} {fs} inner) h =
        let (w, is, _) = >>=-eq-ok (resolve (settable && exported) v) _ h in
        resolve-fails (settable && exported) inner is
    resolve_fields-fails settable (later {exported} {required} {name} {v} {fs} inner) h =
        let (w, _, rest) = >>=-eq-ok (resolve (settable && exported) v) _ h in
        let (gs, is, _) = >>=-eq-ok (resolve_fields settable fs) _ rest in
        resolve_fields-fails settable inner is

  -- A configuration in which pointers, slices and structs lead to a map that begins with a string
  -- is never resolved, whatever the environment and whether or not the string holds a reference.
  pub resolve-MapIn : {v w : Value} → MapIn v → resolve true v ≢ ok w
  resolve-MapIn inner = resolve-fails true inner
