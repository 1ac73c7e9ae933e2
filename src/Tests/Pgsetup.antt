-- ===== src/Tests/Pgsetup.antt =====
-- pgsetup.go at a data directory that is absent.
use syncctl.Base.{true, false, some, ◌≡◌, refl, codes}
use syncctl.Pgsetup.{SetupOptions, absent}
use syncctl.Pgsetup.AppName.{append_app_name, inject_app_name}
use syncctl.Pgsetup.Redact.{redact_dsn}
use syncctl.Pgsetup.Setup.{SetupWorld, run_setup}
use syncctl.Pgsetup.Empty.{Done, run_setup-Done}

abbrev fresh : SetupWorld
fresh = record {
  listing = absent;
  backup_succeeds = true;
  conf = some (codes "primary_conninfo = 'user=r'\n");
  write_succeeds = true;
}

abbrev with_slot : SetupOptions
with_slot = record {
  primary_dsn = codes "host=a";
  password = codes "p";
  data_dir = codes "/d";
  slot_name = codes "s";
  dry_run = false;
}

named_once :
    append_app_name (codes "s") (codes "primary_conninfo = 'user=r'\n")
    ≡ codes "primary_conninfo = 'user=r application_name=s'\n"
unfolding append_app_name
named_once = refl

-- An unquoted value gets a quote that closes nothing.
unquoted :
    inject_app_name (codes "primary_conninfo = a") (codes "s")
    ≡ codes "primary_conninfo = a application_name=s'"
unfolding inject_app_name
unquoted = refl

redacted : redact_dsn (codes "user=r password='a b' host=h") ≡ codes "user=r password=*** host=h"
unfolding redact_dsn
redacted = refl

run_setup-Done_example : Done fresh with_slot (run_setup fresh with_slot)
run_setup-Done_example = run_setup-Done fresh with_slot
