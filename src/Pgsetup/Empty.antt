-- ===== src/Pgsetup/Empty.antt =====
-- pgsetup/pgsetup.go, `Run`: a data directory that holds something is left alone.
use syncctl.Base.{
  Bool, true, false, not, Option, none, some, [], ◌∷◌, ◌≡◌, ◌≢◌, ◌↔◌, ◌⊎◌, inl, inr, refl, Text,
  is_empty, is_empty-eq, not-false, if◌then◌else◌,
}
use syncctl.Base.Result.{Result, ok, err}
use syncctl.Pgsetup.{
  SetupOptions, build_basebackup_args, Listing, entries, absent, unreadable, SetupError, not_empty,
  not_inspected, no_data_dir, no_primary_dsn, backup_failed, conf_unreadable, write_failed,
  check_data_dir,
}
use syncctl.Pgsetup.AppName.{append_app_name}
use syncctl.Pgsetup.Setup.{
  SetupEvent, basebackup, write_conf, SetupWorld, SetupRun, password_env, append_conn_info,
  write_named, outcome, back_up, set_up, run_setup,
}

abbrev pub IsFree : Listing → Type 0
IsFree l = (l ≡ entries []) ⊎ (l ≡ absent)

not-true : (b : Bool) → not b ≡ true → b ≡ false
not-true true h = cc
not-true false h = refl

module _ (w : SetupWorld) (o : SetupOptions) where
  abbrev pub the_backup : SetupEvent
  the_backup = basebackup (build_basebackup_args o) (password_env o.password)

  -- What a run may do: nothing; a backup into a free directory; or, behind a backup that succeeds, also
  -- write the file of the backup with the name of the slot. It succeeds if all of it does.
  pub data Done : SetupRun → Type 0 where
    refused : (e : SetupError) → Done (err e, [])
    previewed : o.dry_run ≡ true → Done (ok tt, [])
    failed_backup :
        IsFree w.listing
        → o.dry_run ≡ false
        → w.backup_succeeds ≡ false
        → Done (err backup_failed, the_backup ∷ [])
    backed_up :
        IsFree w.listing
        → o.dry_run ≡ false
        → w.backup_succeeds ≡ true
        → o.slot_name ≡ []
        → Done (ok tt, the_backup ∷ [])
    unread :
        IsFree w.listing
        → o.dry_run ≡ false
        → w.backup_succeeds ≡ true
        → w.conf ≡ none
        → Done (err conf_unreadable, the_backup ∷ [])
    named :
        (content : Text) (r : Result SetupError (Unit {0}))
        → IsFree w.listing
        → o.dry_run ≡ false
        → w.backup_succeeds ≡ true
        → w.conf ≡ some content
        → o.slot_name ≢ []
        → (r ≡ ok tt) ↔ (w.write_succeeds ≡ true)
        → Done (r, the_backup ∷ write_conf (append_app_name o.slot_name content) ∷ [])

  -- The value of a test may be put for the test.
  by_test :
      (b : Bool) {x y : SetupRun}
      → (b ≡ true → Done x)
      → (b ≡ false → Done y)
      → Done (if b then x else y)
  by_test true h k = h refl
  by_test false h k = k refl

  slot-cases :
      (is_empty o.slot_name ≡ true → o.slot_name ≡ [])
      × (is_empty o.slot_name ≡ false → o.slot_name ≢ [])
  slot-cases = (is_empty-eq o.slot_name, full-ne o.slot_name)
    where
      full-ne : (t : Text) → is_empty t ≡ false → t ≢ []
      full-ne [] h e = cc
      full-ne (c ∷ t) h e = cc

  write_named-Done :
      (conf : Option Text)
      → w.conf ≡ conf
      → IsFree w.listing
      → o.dry_run ≡ false
      → w.backup_succeeds ≡ true
      → o.slot_name ≢ []
      → Done (write_named w o conf (the_backup ∷ []))
  write_named-Done none e free wet ran slot = unread free wet ran e
  write_named-Done (some content) e free wet ran slot =
      named content (outcome w.write_succeeds write_failed) free wet ran e slot
        (written w.write_succeeds)
    where
      written : (b : Bool) → (outcome b write_failed ≡ ok tt) ↔ (b ≡ true)
      written true = ((λ h. refl), λ h. refl)
      written false = ((λ h. cc), λ h. cc)

  append_conn_info-Done :
      IsFree w.listing
      → o.dry_run ≡ false
      → w.backup_succeeds ≡ true
      → Done (append_conn_info w o (the_backup ∷ []))
  unfolding append_conn_info
  append_conn_info-Done free wet ran =
      by_test (is_empty o.slot_name) (λ e. backed_up free wet ran (slot-cases.0 e))
        (λ e. write_named-Done w.conf refl free wet ran (slot-cases.1 e))

  back_up-Done : IsFree w.listing → o.dry_run ≡ false → Done (back_up w o)
  back_up-Done free wet =
      by_test (not w.backup_succeeds) (λ e. failed_backup free wet (not-true w.backup_succeeds e))
        (λ e. append_conn_info-Done free wet (not-false w.backup_succeeds e))

  set_up-Done : (l : Listing) → w.listing ≡ l → Done (set_up w o (check_data_dir l))
  unfolding set_up check_data_dir
  set_up-Done (entries (e ∷ es)) h = refused not_empty
  set_up-Done unreadable h = refused not_inspected
  set_up-Done (entries []) h = by_test o.dry_run (λ e. previewed e) (λ e. back_up-Done (inl h) e)
  set_up-Done absent h = by_test o.dry_run (λ e. previewed e) (λ e. back_up-Done (inr h) e)

  -- A run does nothing, or backs up into a data directory that is absent or holds no entry, and only
  -- behind a backup that succeeds, and with a slot, writes the file of the backup with the name of the
  -- slot. A dry run does nothing, and what is reported is the outcome of the last step.
  pub run_setup-Done : Done (run_setup w o)
  unfolding run_setup
  run_setup-Done =
      by_test (is_empty o.data_dir) (λ e. refused no_data_dir)
        (λ e.
          by_test (is_empty o.primary_dsn) (λ e. refused no_primary_dsn)
            (λ e. set_up-Done w.listing refl))
