-- ===== src/Resource.antt =====
-- The resource, graph-service/src/tateyama/framework/graph/resource.cpp: `start` gets the database
-- from the framework and initialises the storage object in a transaction of its own.
pub mod Start
use tsurugi_graph.Base.{
  ℕ, Bool, true, false, Option, none, some, List, [], ◌∷◌, ◌++◌, ◌==◌, if◌then◌else◌,
}
use tsurugi_graph.Kvs.{Kvs}
use tsurugi_graph.Storage.State.{Storage, World}
use tsurugi_graph.Storage.Init.{Catalog, init}
use tsurugi_graph.Service.Guard.{
  Call, transaction_begin, transaction_borrow_handle, transaction_commit, transaction_abort,
  transaction_dispose, Begun, refused, opened,
}

pub record Resource (S : Type 0) : Type 0 where
  pub world : World S
  pub db_handle : ℕ
  pub initialized : Bool

-- A new storage object.
abbrev pub new_storage : Storage
new_storage = record {
  nodes_handle = 0;
  edges_handle = 0;
  out_index_handle = 0;
  in_index_handle = 0;
  label_index_handle = 0;
  property_index_handle = 0;
  sequence_id = 0;
  sequence_version = 0;
  next_id = 1;
  sequence_batch_remaining = 0;
}

unfoldable pub setup : {S : Type 0} → Resource S → Bool × Resource S
setup {S = S} r = (true, record r { world = record r.world { store = new_storage } })

unfoldable pub shutdown : {S : Type 0} → Resource S → Bool × Resource S
shutdown {S = S} r = (true, record r { initialized = false })

module _ {S : Type 0} (kvs : Kvs S) (catalog : Catalog S) where
  -- Behind a transaction that was borrowed. The flag is whether the commit succeeds.
  unfoldable pub initialize : ℕ → Bool → Resource S → Bool × Resource S × List Call
  initialize ctl commits r =
      let (ready, w) = init kvs catalog r.db_handle r.world in
      let r1 : Resource S = record r { world = w } in
      elim ready [
        | false ↦ (false, r1, transaction_abort ctl ∷ transaction_dispose ctl ∷ [])
        | true ↦ (
          commits,
          (if commits then record r1 { initialized = true } else r1),
          transaction_commit ctl ∷ transaction_dispose ctl ∷ [],
        )
      ]

  unfoldable pub start_with : Begun → Bool → Resource S → Bool × Resource S × List Call
  unfolding initialize
  start_with refused commits r = (false, r, [])
  start_with (opened ctl false) commits r = (
    false,
    r,
    transaction_begin ctl
        ∷ transaction_borrow_handle ctl
        ∷ transaction_abort ctl
        ∷ transaction_dispose ctl
        ∷ [],
  )
  start_with (opened ctl true) commits r =
      let (ready, r1, calls) = initialize ctl commits r in
      (ready, r1, transaction_begin ctl ∷ transaction_borrow_handle ctl ∷ calls)

  -- The framework's bridge to the store, `none` where it is not found; a null handle is 0.
  unfoldable pub start : Option ℕ → Begun → Bool → Resource S → Bool × Resource S × List Call
  unfolding start_with
  start none begun commits r = (false, r, [])
  start (some db) begun commits r =
      let r1 : Resource S = record r { db_handle = db } in
      let started = start_with begun commits r1 in if db == 0 then (false, r1, []) else started
