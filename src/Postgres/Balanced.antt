-- ===== src/Postgres/Balanced.antt =====
-- postgres/reconciler.go: no pool is left open when the reconciler cannot be built.
use mathlib.Core.List.{append_assoc, append-nil, map-append}
use syncctl.Base.{List, [], ◌∷◌, ◌++◌, map, ◌≡◌, refl, sym, ap, ◌∙◌, Text}
use syncctl.Base.Result.{Result, ok, err}
use syncctl.Config.Types.{Config, SiteConfig}
use syncctl.Config.Dsn.{dsn}
use syncctl.Postgres.Pools.{
  Pool, Pools, Factory, SecondaryConn, PgReconciler, ConnectError, open_pool, pools_of, close_all,
  or_close, connect_secondaries, with_primary, new_with_factory, close,
}

abbrev names_of : List SecondaryConn → List Text
names_of = map (λ (c : SecondaryConn). c.name)

-- A reconciler holds exactly the pools that were opened, one for each secondary, and `Close` closes
-- these; without one, exactly the pools that were opened are closed.
pub record Held (sites : List SiteConfig) (r : PgReconciler) (s s' : Pools) : Type 0 where
  pub opened : s'.opened ≡ s.opened ++ (r.primary ∷ pools_of r.secondaries)
  pub untouched : s'.closed ≡ s.closed
  pub named : names_of r.secondaries ≡ map (λ (c : SiteConfig). c.name) sites
  pub closing : (close r s').closed ≡ s.closed ++ (r.primary ∷ pools_of r.secondaries)

pub record Released (s s' : Pools) : Type 0 where
  pub pools : List Pool
  pub opened : s'.opened ≡ s.opened ++ pools
  pub closed : s'.closed ≡ s.closed ++ pools

pub Balanced : List SiteConfig → Pools → Result ConnectError PgReconciler × Pools → Type 0
Balanced sites s (ok r, s') = Held sites r s s'
Balanced sites s (err e, s') = Released s s'

-- While the loop runs, what was opened is the primary and those that are connected.
record Connected (s : Pools) (primary : Pool) (conns : List SecondaryConn) (now : Pools)
    : Type 0 where
  opened : now.opened ≡ s.opened ++ (primary ∷ pools_of conns)
  untouched : now.closed ≡ s.closed

Connected-next :
    (s : Pools) (primary : Pool) (conns : List SecondaryConn) (now : Pools) (name : Text) (p : Pool)
    → Connected s primary conns now
    → Connected s primary (conns ++ record { name = name; pool = p } ∷ []) (open_pool p now)
Connected-next s primary conns now name p h = record {
  opened =
      ap (λ l. l ++ p ∷ []) h.opened
      ∙ append_assoc s.opened (primary ∷ pools_of conns) (p ∷ [])
      ∙ ap (λ l. s.opened ++ (primary ∷ l))
          (sym (
            map-append (λ (c : SecondaryConn). c.pool) conns
              (record { name = name; pool = p } ∷ [])));
  untouched = h.untouched;
}

abbrev sites_of : List SiteConfig → List Text
sites_of = map (λ (c : SiteConfig). c.name)

-- One step of the loop, if what follows a connection is balanced.
or_close-Balanced :
    (sites : List SiteConfig) (s now : Pools) (primary : Pool) (conns : List SecondaryConn)
    (name : Text) (r : Result Text Pool) (go : Pool → Result ConnectError PgReconciler × Pools)
    → Connected s primary conns now
    → ((p : Pool) → Balanced sites s (go p))
    → Balanced sites s (or_close primary conns name r now go)
unfolding Balanced close_all
or_close-Balanced sites s now primary conns name (ok p) go h k = k p
or_close-Balanced sites s now primary conns name (err e) go h k = record {
  pools = primary ∷ pools_of conns;
  opened = h.opened;
  closed = ap (λ l. l ++ (primary ∷ pools_of conns)) h.untouched;
}

module _ (pf : Factory) (s : Pools) (primary : Pool) (sites : List SiteConfig) where
  connect_secondaries-Balanced :
      (conns : List SecondaryConn) (rest : List SiteConfig) (now : Pools)
      → Connected s primary conns now
      → names_of conns ++ sites_of rest ≡ sites_of sites
      → Balanced sites s (connect_secondaries pf primary conns rest now)
  unfolding connect_secondaries
  connect_secondaries-Balanced conns [] now h e =
      unfold Balanced close in
      record {
        opened = h.opened;
        untouched = h.untouched;
        named = sym (append-nil (names_of conns)) ∙ e;
        closing = ap (λ l. l ++ (primary ∷ pools_of conns)) h.untouched;
      }
  connect_secondaries-Balanced conns (sc ∷ rest) now h e =
      or_close-Balanced sites s now primary conns sc.name (pf now (dsn sc.postgres)) _ h (λ p.
        connect_secondaries-Balanced (conns ++ record { name = sc.name; pool = p } ∷ []) rest
          (open_pool p now) (Connected-next s primary conns now sc.name p h)
          (ap (λ l. l ++ sites_of rest)
              (map-append (λ (c : SecondaryConn). c.name) conns
                (record { name = sc.name; pool = p } ∷ []))
            ∙ append_assoc (names_of conns) (sc.name ∷ []) (sites_of rest)
            ∙ e))

with_primary-Balanced :
    (pf : Factory) (s : Pools) (sites : List SiteConfig) (r : Result Text Pool)
    → Balanced sites s (with_primary pf sites r s)
unfolding with_primary
with_primary-Balanced pf s sites (err e) =
    unfold Balanced in
    record { pools = []; opened = sym (append-nil s.opened); closed = sym (append-nil s.closed) }
with_primary-Balanced pf s sites (ok p) =
    connect_secondaries-Balanced pf s p sites [] sites (open_pool p s)
      (record { opened = refl; untouched = refl }) refl

-- However the connections go, a reconciler that is built holds exactly the pools that were opened, the
-- primary's and one for each secondary by its name, none of them closed, and `Close` closes exactly
-- these; if it is not built, exactly the pools that were opened are closed, each once.
pub new_with_factory-Balanced :
    (pf : Factory) (cfg : Config) (s : Pools)
    → Balanced cfg.secondaries s (new_with_factory pf cfg s)
unfolding new_with_factory
new_with_factory-Balanced pf cfg s =
    with_primary-Balanced pf s cfg.secondaries (pf s (dsn cfg.primary.postgres))
