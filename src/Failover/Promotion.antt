-- ===== src/Failover/Promotion.antt =====
-- internal/failover/failover.go: `Promote` and its sequence.
use syncctl.Base.{not, ◌&&◌, List, [], ◌∷◌, Text, codes, if◌then◌else◌}
use syncctl.Base.Result.{Result, ok, err}
use syncctl.Config.Types.{SiteConfig}
use syncctl.Effects.{World}
use syncctl.Failover.Health.{verify_primary_down}
use syncctl.Failover.Steps.{
  Step, run_steps, stop_command, promote_command, start_command, ssh_secondary,
  verify_db_key_parity, disable_read_only,
}
use syncctl.Failover.Targets.{find_secondary}
use syncctl.Failover.{Controller, FailoverError, failover_disabled, Act}

module _ (w : World) (c : Controller) where
  -- The steps that change the secondary.
  unfoldable pub change_steps : SiteConfig → List Step
  change_steps secondary =
      record {
        name = codes "stop gitlab services on secondary";
        act = ssh_secondary w c secondary.ssh_host stop_command;
      }
      ∷ record {
        name = codes "promote postgres";
        act = ssh_secondary w c secondary.ssh_host promote_command;
      }
      ∷ record {
        name = codes "disable read-only mode";
        act = disable_read_only w c secondary.ssh_host;
      }
      ∷ record {
        name = codes "start gitlab services on secondary";
        act = ssh_secondary w c secondary.ssh_host start_command;
      }
      ∷ []

  -- `promotionSteps`: the checks stand before every change.
  unfoldable pub promotion_steps : SiteConfig → List Step
  unfolding change_steps
  promotion_steps secondary =
      record { name = codes "verify primary down"; act = verify_primary_down w c }
      ∷ record {
        name = codes "verify db_key_base parity";
        act = verify_db_key_parity w c secondary;
      }
      ∷ change_steps secondary

  unfoldable pub promote_site : SiteConfig → Act (Unit {0})
  unfolding run_steps promotion_steps
  promote_site secondary s =
      if not c.dry_run && not c.cfg.sync.failover_enabled
      then (err failover_disabled, s)
      else run_steps c.dry_run (promotion_steps secondary) s

  unfoldable pub promote_found : Result FailoverError SiteConfig → Act (Unit {0})
  unfolding promote_site
  promote_found (err e) s = (err e, s)
  promote_found (ok secondary) s = promote_site secondary s

  -- `Promote`
  unfoldable pub promote : Text → Act (Unit {0})
  unfolding promote_found find_secondary
  promote name = promote_found (find_secondary c.cfg name)
