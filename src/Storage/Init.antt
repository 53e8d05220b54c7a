-- ===== src/Storage/Init.antt =====
-- `storage::init`: the handles of the six tables and the sequence.
pub mod Tables
use tsurugi_graph.Base.{ℕ, Bool, true, false, Option, none, some, Bytes, bytes, if◌then◌else◌, ◌==◌}
use tsurugi_graph.Kvs.{Kvs}
use tsurugi_graph.Storage.State.{Storage, World}
use tsurugi_graph.Storage.Ids.{recover_sequence}

-- What `storage_create` returns: the new handle, ALREADY_EXISTS, or another code.
pub data Created : Type 0 where
  created : ℕ → Created
  already_exists create_failed : Created

-- The store's catalog. `storage_get` and `sequence_create` give nothing where they fail.
pub record Catalog (S : Type 0) : Type 0 where
  pub storage_create : S → Bytes → Created × S
  pub storage_get : S → Bytes → Option ℕ
  pub sequence_create : S → Option ℕ × S

abbrev pub storage_name_nodes : Bytes
storage_name_nodes = bytes "graph_nodes"

abbrev pub storage_name_edges : Bytes
storage_name_edges = bytes "graph_edges"

abbrev pub storage_name_out_index : Bytes
storage_name_out_index = bytes "graph_out_index"

abbrev pub storage_name_in_index : Bytes
storage_name_in_index = bytes "graph_in_index"

abbrev pub storage_name_label_index : Bytes
storage_name_label_index = bytes "graph_label_index"

abbrev pub storage_name_property_index : Bytes
storage_name_property_index = bytes "graph_prop_index"

-- A step of `init`: false, with the object so far, or true.
abbrev pub Step : Type 0 → Type 0
Step S = Bool × World S

infixl 5 ◌and◌
abbrev pub ◌and◌ : {S : Type 0} → Step S → (World S → Step S) → Step S
(true, w) and k = k w
(false, w) and k = (false, w)

module _ {S : Type 0} (kvs : Kvs S) (catalog : Catalog S) where
  -- The lambda `init_storage`: the table is created, or got where it exists.
  unfoldable pub init_storage : Bytes → S → Option ℕ × S
  init_storage name db =
      let (result, db1) = catalog.storage_create db name in
      elim result [
        | created h ↦ (some h, db1)
        | already_exists ↦ (catalog.storage_get db1 name, db1)
        | create_failed ↦ (none, db1)
      ]

  -- A handle that is written where the table is there.
  unfoldable pub init_table : Bytes → (ℕ → Storage → Storage) → World S → Step S
  unfolding init_storage
  init_table name set_handle w =
      let (handle, db) = init_storage name w.db in
      elim handle [
        | none ↦ (false, record w { db = db })
        | some h ↦ (true, record w { store = set_handle h w.store; db = db })
      ]

  unfoldable pub init_tables : World S → Step S
  unfolding init_table
  init_tables w =
      init_table storage_name_nodes (λ h st. record st { nodes_handle = h }) w
      and init_table storage_name_edges (λ h st. record st { edges_handle = h })
      and init_table storage_name_out_index (λ h st. record st { out_index_handle = h })
      and init_table storage_name_in_index (λ h st. record st { in_index_handle = h })
      and init_table storage_name_label_index (λ h st. record st { label_index_handle = h })
      and init_table storage_name_property_index (λ h st. record st { property_index_handle = h })

  -- A failure of `sequence_create` is only logged.
  unfoldable pub init_sequence : World S → World S
  init_sequence w =
      let (id, db) = catalog.sequence_create w.db in
      let w1 : World S = record w { db = db } in
      elim id [
        | none ↦ recover_sequence kvs w1
        | some s ↦ recover_sequence kvs (record w1 { store = record w.store { sequence_id = s } })
      ]

  -- The argument is the database's handle.
  unfoldable pub init : ℕ → World S → Step S
  unfolding init_tables init_sequence
  init db_handle w =
      let tables = init_tables w in
      if db_handle == 0 then (false, w) else (tables and λ w1. (true, init_sequence w1))
