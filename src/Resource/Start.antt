-- ===== src/Resource/Start.antt =====
-- What a start of the resource leaves.
use tsurugi_graph.Base.{
  ℕ, ◌≡◌, ◌⊎◌, refl, sym, inl, inr, Bool, true, false, Option, none, some, List, [], ◌∷◌, ◌==◌,
  ◌&&◌, if◌then◌else◌, Bool-cases,
}
use mathlib.Core.Path.{subst}
use tsurugi_graph.Kvs.{Kvs}
use tsurugi_graph.Storage.State.{World}
use tsurugi_graph.Storage.Frame.{HasTables}
use tsurugi_graph.Storage.Init.{Catalog, init}
use tsurugi_graph.Storage.Init.Tables.{IsCatalog, init-HasTables}
use tsurugi_graph.Service.Guard.{
  Call, transaction_begin, transaction_borrow_handle, transaction_commit, transaction_abort,
  transaction_dispose, Begun, refused, opened,
}
use tsurugi_graph.Resource.{Resource, initialize, start_with, start}

-- A transaction that was begun, borrowed, ended by `last` and disposed of.
abbrev pub transaction : ℕ → (ℕ → Call) → List Call
transaction ctl last =
    transaction_begin ctl ∷ transaction_borrow_handle ctl ∷ last ctl ∷ transaction_dispose ctl ∷ []

-- A resource that may be used: its tables are there, in a transaction that was committed.
pub record IsStarted {S : Type 0} (db ctl : ℕ) (r : Resource S) (calls : List Call) : Type 0 where
  pub handle : r.db_handle ≡ db
  pub flag : r.initialized ≡ true
  pub tables : HasTables r.world.store
  pub committed : calls ≡ transaction ctl transaction_commit

module _ {S : Type 0} (kvs : Kvs S) (catalog : Catalog S) (laws : IsCatalog catalog) where
  -- No transaction was begun, or the one that was begun was aborted, or committed, and disposed of.
  abbrev pub Ended : Begun → List Call → Type 0
  Ended begun calls =
      (calls ≡ [])
      ⊎ ((ctl : ℕ) × (borrowed : Bool) × (begun ≡ opened ctl borrowed)
          × ((calls ≡ transaction ctl transaction_abort)
              ⊎ (calls ≡ transaction ctl transaction_commit)))

  -- True with a resource that is started in the transaction that was begun, or false with the flag
  -- of before.
  unfoldable pub Outcome : Option ℕ → Begun → Resource S → Bool × Resource S × List Call → Type 0
  Outcome found begun r (true, r1, calls) =
      (db : ℕ) × (ctl : ℕ) × (found ≡ some db)
      × (begun ≡ opened ctl true)
      × IsStarted db ctl r1 calls
  Outcome found begun r (false, r1, calls) = (r1.initialized ≡ r.initialized) × Ended begun calls

  -- A start behind an `init` that returned `ready`.
  opened_lem :
      (db ctl : ℕ) (commits ready : Bool) (r : Resource S)
      → (init kvs catalog db r.world).0 ≡ ready
      → start_with kvs catalog (opened ctl true) commits (record r { db_handle = db }) ≡ (
        ready && commits,
        record {
          world = (init kvs catalog db r.world).1;
          db_handle = db;
          initialized = if ready && commits then true else r.initialized;
        },
        transaction ctl (if ready then transaction_commit else transaction_abort),
      )
  unfolding start_with initialize
  opened_lem db ctl commits false r e = rw (e, start_with, initialize) refl
  opened_lem db ctl false true r e = rw (e, start_with, initialize) refl
  opened_lem db ctl true true r e = rw (e, start_with, initialize) refl

  after_init-Outcome :
      (db ctl : ℕ) (commits ready : Bool) (r : Resource S) (w : World S)
      → init kvs catalog db r.world ≡ (ready, w)
      → Outcome (some db) (opened ctl true) r (
        ready && commits,
        record {
          world = w;
          db_handle = db;
          initialized = if ready && commits then true else r.initialized;
        },
        transaction ctl (if ready then transaction_commit else transaction_abort),
      )
  unfolding Outcome
  after_init-Outcome db ctl commits false r w e = (refl, inr (ctl, true, refl, inl refl))
  after_init-Outcome db ctl false true r w e = (refl, inr (ctl, true, refl, inr refl))
  after_init-Outcome db ctl true true r w e =
      let tables = init-HasTables kvs catalog laws db r.world w e in
      (
        db,
        ctl,
        refl,
        refl,
        record { handle = refl; flag = refl; tables = tables; committed = refl },
      )

  opened-Outcome :
      (db ctl : ℕ) (commits : Bool) (r : Resource S)
      → Outcome
          (some db)
          (opened ctl true)
          r
          (start_with kvs catalog (opened ctl true) commits (record r { db_handle = db }))
  opened-Outcome db ctl commits r =
      let (ready, w) = init kvs catalog db r.world in
      subst (Outcome (some db) (opened ctl true) r) (sym (opened_lem db ctl commits ready r refl))
        (after_init-Outcome db ctl commits ready r w refl)

  start_with-Outcome :
      (db : ℕ) (begun : Begun) (commits : Bool) (r : Resource S)
      → Outcome
          (some db)
          begun
          r
          (start_with kvs catalog begun commits (record r { db_handle = db }))
  unfolding start_with Outcome
  start_with-Outcome db refused commits r = (refl, inl refl)
  start_with-Outcome db (opened ctl false) commits r = (refl, inr (ctl, false, refl, inl refl))
  start_with-Outcome db (opened ctl true) commits r = opened-Outcome db ctl commits r

  -- Where the catalog gives each name a table of its own, a start either returns true, with the
  -- database's handle, the flag set, the tables there, and the one transaction that was begun
  -- committed and disposed of; or it returns false, with the flag as before, and a transaction
  -- that was begun is ended once and disposed of.
  pub start-Outcome :
      (found : Option ℕ) (begun : Begun) (commits : Bool) (r : Resource S)
      → Outcome found begun r (start kvs catalog found begun commits r)
  unfolding start Outcome
  start-Outcome none begun commits r = (refl, inl refl)
  start-Outcome (some db) begun commits r = elim (Bool-cases (db == 0)) [
    | inl e ↦ rw e (refl, inl refl)
    | inr e ↦ rw e (start_with-Outcome db begun commits r)
  ]
