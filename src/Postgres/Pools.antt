-- ===== src/Postgres/Pools.antt =====
-- postgres/reconciler.go: `NewWithFactory` and `Close`. A pool is a number, and the state of the outside
-- keeps those that were opened and those that were closed, in their order. Whether the factory
-- succeeds may depend on all that happened before.
use syncctl.Base.{ℕ, List, [], ◌∷◌, ◌++◌, map, Text}
use syncctl.Base.Result.{Result, ok, err}
use syncctl.Config.Types.{Config, SiteConfig}
use syncctl.Config.Dsn.{dsn}

abbrev pub Pool : Type 0
Pool = ℕ

pub record Pools : Type 0 where
  pub opened : List Pool
  pub closed : List Pool

-- What the factory gives for a connection string: a pool, or an error.
abbrev pub Factory : Type 0
Factory = Pools → Text → Result Text Pool

-- `secondaryConn`
pub record SecondaryConn : Type 0 where
  pub name : Text
  pub pool : Pool

-- `Reconciler`
pub record PgReconciler : Type 0 where
  pub primary : Pool
  pub secondaries : List SecondaryConn

pub data ConnectError : Type 0 where
  primary_failed : Text → ConnectError
  secondary_failed : Text → Text → ConnectError

abbrev pub open_pool : Pool → Pools → Pools
open_pool p s = record s { opened = s.opened ++ p ∷ [] }

abbrev pub pools_of : List SecondaryConn → List Pool
pools_of = map (λ (c : SecondaryConn). c.pool)

-- The primary first, then the secondaries.
unfoldable pub close_all : Pool → List SecondaryConn → Pools → Pools
close_all primary secondaries s = record s { closed = s.closed ++ (primary ∷ pools_of secondaries) }

-- A failure closes the primary and those that are connected.
abbrev pub or_close :
    Pool
    → List SecondaryConn
    → Text
    → Result Text Pool
    → Pools
    → (Pool → Result ConnectError PgReconciler × Pools)
    → Result ConnectError PgReconciler × Pools
or_close primary conns name (err e) s go =
    (err (secondary_failed name e), close_all primary conns s)
or_close primary conns name (ok p) s go = go p

module _ (pf : Factory) where
  -- The loop over the secondaries, with those that are connected.
  unfoldable pub connect_secondaries :
      Pool → List SecondaryConn → List SiteConfig → Pools → Result ConnectError PgReconciler × Pools
  unfolding close_all
  connect_secondaries primary conns [] s =
      (ok (record { primary = primary; secondaries = conns }), s)
  connect_secondaries primary conns (sc ∷ rest) s =
      or_close primary conns sc.name (pf s (dsn sc.postgres)) s (λ p.
        connect_secondaries primary (conns ++ record { name = sc.name; pool = p } ∷ []) rest
          (open_pool p s))

  unfoldable pub with_primary :
      List SiteConfig → Result Text Pool → Pools → Result ConnectError PgReconciler × Pools
  unfolding connect_secondaries
  with_primary secondaries (err e) s = (err (primary_failed e), s)
  with_primary secondaries (ok p) s = connect_secondaries p [] secondaries (open_pool p s)

  -- `NewWithFactory`
  unfoldable pub new_with_factory : Config → Pools → Result ConnectError PgReconciler × Pools
  unfolding with_primary dsn
  new_with_factory cfg s = with_primary cfg.secondaries (pf s (dsn cfg.primary.postgres)) s

-- `Close`
unfoldable pub close : PgReconciler → Pools → Pools
unfolding close_all
close r s = close_all r.primary r.secondaries s
