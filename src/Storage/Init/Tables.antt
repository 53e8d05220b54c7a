-- ===== src/Storage/Init/Tables.antt =====
-- The tables behind `storage::init`.
use tsurugi_graph.Base.{
  ℕ, ◌≡◌, refl, sym, ap, ◌∙◌, inl, inr, true, false, Option, none, some, Bytes, ◌==◌, arith,
  eq_bytes, Bool-cases, Option-cases,
}
use mathlib.Core.Path.{subst}
use tsurugi_graph.Kvs.{Kvs}
use tsurugi_graph.Storage.State.{Storage, World}
use tsurugi_graph.Storage.Ids.{recover_sequence}
use tsurugi_graph.Storage.Frame.{HasTables}
use tsurugi_graph.Storage.Init.{
  Created, created, already_exists, create_failed, Catalog, storage_name_nodes, storage_name_edges,
  storage_name_out_index, storage_name_in_index, storage_name_label_index,
  storage_name_property_index, Step, ◌and◌, init_storage, init_table, init_tables, init_sequence,
  init,
}

-- A handle stands for the table of one name, and is not null, whether it was created or got.
pub record IsCatalog {S : Type 0} (catalog : Catalog S) : Type 0 where
  pub handle_of : Bytes → ℕ
  pub created_handle :
      (s : S) (name : Bytes) (h : ℕ)
      → (catalog.storage_create s name).0 ≡ created h
      → h ≡ handle_of name
  pub got_handle :
      (s : S) (name : Bytes) (h : ℕ) → catalog.storage_get s name ≡ some h → h ≡ handle_of name
  pub open_handle : (name : Bytes) → handle_of name == 0 ≡ false
  pub distinct_handles : (n m : Bytes) → eq_bytes n m ≡ false → handle_of n == handle_of m ≡ false

and-true :
    {S : Type 0} (s : Step S) (k : World S → Step S) (w : World S)
    → s and k ≡ (true, w)
    → (w0 : World S) × (s ≡ (true, w0)) × (k w0 ≡ (true, w))
and-true (true, w0) k w h = (w0, refl, h)
and-true (false, w0) k w h = absurd (ground arith)

module _ {S : Type 0} (kvs : Kvs S) (catalog : Catalog S) (laws : IsCatalog catalog) where
  -- A handle from `init_storage` is the name's.
  GivesHandle : Bytes → Option ℕ → Type 0
  GivesHandle name none = Unit
  GivesHandle name (some h) = h ≡ laws.handle_of name

  got-GivesHandle : (name : Bytes) (db : S) → GivesHandle name (catalog.storage_get db name)
  unfolding GivesHandle
  got-GivesHandle name db = elim (Option-cases (catalog.storage_get db name)) [
    | inl e ↦ rw e tt
    | inr (h, e) ↦ rw e (laws.got_handle db name h e)
  ]

  created-GivesHandle :
      (name : Bytes) (db : S) (c : Created)
      → (catalog.storage_create db name).0 ≡ c
      → GivesHandle name (init_storage kvs catalog name db).0
  unfolding init_storage GivesHandle
  created-GivesHandle name db (created h) e = rw (e, init_storage) (laws.created_handle db name h e)
  created-GivesHandle name db already_exists e = rw (e, init_storage) (got-GivesHandle name _)
  created-GivesHandle name db create_failed e = rw (e, init_storage) tt

  init_storage-GivesHandle :
      (name : Bytes) (db : S) → GivesHandle name (init_storage kvs catalog name db).0
  init_storage-GivesHandle name db =
      created-GivesHandle name db (catalog.storage_create db name).0 refl

  init_table-true :
      (name : Bytes) (set_handle : ℕ → Storage → Storage) (w w1 : World S)
      → init_table kvs catalog name set_handle w ≡ (true, w1)
      → w1.store ≡ set_handle (laws.handle_of name) w.store
  unfolding init_table GivesHandle
  init_table-true name set_handle w w1 e =
      elim (Option-cases (init_storage kvs catalog name w.db).0) [
        | inl n ↦ absurd (ground arith)
        | inr (h, n) ↦
            let given : h ≡ laws.handle_of name =
              subst (GivesHandle name) n (init_storage-GivesHandle name w.db) in
            ground arith
      ]

  -- The object with its six handles.
  abbrev with_tables : Storage → Storage
  with_tables st = record st {
    nodes_handle = laws.handle_of storage_name_nodes;
    edges_handle = laws.handle_of storage_name_edges;
    out_index_handle = laws.handle_of storage_name_out_index;
    in_index_handle = laws.handle_of storage_name_in_index;
    label_index_handle = laws.handle_of storage_name_label_index;
    property_index_handle = laws.handle_of storage_name_property_index;
  }

  with_tables-HasTables : (st : Storage) → HasTables (with_tables st)
  unfolding eq_bytes
  with_tables-HasTables st = record {
    nodes_open = laws.open_handle _;
    edges_open = laws.open_handle _;
    out_open = laws.open_handle _;
    in_open = laws.open_handle _;
    label_open = laws.open_handle _;
    property_open = laws.open_handle _;
    label_nodes = laws.distinct_handles _ _ refl;
    property_nodes = laws.distinct_handles _ _ refl;
    property_label = laws.distinct_handles _ _ refl;
    out_edges = laws.distinct_handles _ _ refl;
    in_edges = laws.distinct_handles _ _ refl;
    in_out = laws.distinct_handles _ _ refl;
    label_edges = laws.distinct_handles _ _ refl;
    property_edges = laws.distinct_handles _ _ refl;
    property_out = laws.distinct_handles _ _ refl;
    property_in = laws.distinct_handles _ _ refl;
    nodes_edges = laws.distinct_handles _ _ refl;
  }

  -- Where the step succeeds, its object is `st`.
  abbrev Leaves : Step S → Storage → Type 0
  Leaves s st = (w : World S) → s ≡ (true, w) → w.store ≡ st

  table-Leaves :
      (s : Step S) (st : Storage) (name : Bytes) (set_handle : ℕ → Storage → Storage)
      → Leaves s st
      → Leaves (s and init_table kvs catalog name set_handle) (set_handle (laws.handle_of name) st)
  table-Leaves s st name set_handle before w h =
      let (w0, e, last) = and-true s (init_table kvs catalog name set_handle) w h in
      init_table-true name set_handle w0 w last
      ∙ ap (set_handle (laws.handle_of name)) (before w0 e)

  init_tables-true : (w : World S) → Leaves (init_tables kvs catalog w) (with_tables w.store)
  unfolding init_tables
  init_tables-true w =
      table-Leaves _ _ storage_name_property_index (λ h st. record st { property_index_handle = h })
        (table-Leaves _ _ storage_name_label_index (λ h st. record st { label_index_handle = h })
          (table-Leaves _ _ storage_name_in_index (λ h st. record st { in_index_handle = h })
            (table-Leaves _ _ storage_name_out_index (λ h st. record st { out_index_handle = h })
              (table-Leaves _ _ storage_name_edges (λ h st. record st { edges_handle = h })
                (init_table-true storage_name_nodes (λ h st. record st { nodes_handle = h }) w)))))

  -- The sequence plays no part in the handles.
  numbers-HasTables :
      (st : Storage) (id version next : ℕ)
      → HasTables st
      → HasTables (record st { sequence_id = id; sequence_version = version; next_id = next })
  numbers-HasTables st id version next h = record {
    nodes_open = h.nodes_open;
    edges_open = h.edges_open;
    out_open = h.out_open;
    in_open = h.in_open;
    label_open = h.label_open;
    property_open = h.property_open;
    label_nodes = h.label_nodes;
    property_nodes = h.property_nodes;
    property_label = h.property_label;
    out_edges = h.out_edges;
    in_edges = h.in_edges;
    in_out = h.in_out;
    label_edges = h.label_edges;
    property_edges = h.property_edges;
    property_out = h.property_out;
    property_in = h.property_in;
    nodes_edges = h.nodes_edges;
  }

  recovered-HasTables : (w : World S) → HasTables w.store → HasTables (recover_sequence kvs w).store
  unfolding recover_sequence
  recovered-HasTables w h = elim (Option-cases (kvs.sequence_get w.db w.store.sequence_id)) [
    | inl e ↦ rw (e, recover_sequence) (numbers-HasTables w.store _ _ _ h)
    | inr (v, e) ↦ rw (e, recover_sequence) (numbers-HasTables w.store _ _ _ h)
  ]

  init_sequence-HasTables :
      (w : World S) → HasTables w.store → HasTables (init_sequence kvs catalog w).store
  unfolding init_sequence
  init_sequence-HasTables w h = elim (Option-cases (catalog.sequence_create w.db).0) [
    | inl e ↦ rw (e, init_sequence) (recovered-HasTables _ h)
    | inr (s, e) ↦
        let w1 : World S = record w {
          store = record w.store { sequence_id = s };
          db = (catalog.sequence_create w.db).1;
        } in
        rw (e, init_sequence) (recovered-HasTables w1 (numbers-HasTables w.store s _ _ h))
  ]

  -- Where the catalog gives each name a table of its own, an `init` that returns true leaves the six
  -- handles open and pairwise different, as far as the other methods rely on it, whether the
  -- tables were there before or not and whether the sequence could be created or not.
  pub init-HasTables :
      (db_handle : ℕ) (w w1 : World S)
      → init kvs catalog db_handle w ≡ (true, w1)
      → HasTables w1.store
  unfolding init
  init-HasTables db_handle w w1 h = elim (Bool-cases (db_handle == 0)) [
    | inl e ↦ absurd (ground arith)
    | inr e ↦
        let (w2, tables, ended) =
          and-true (init_tables kvs catalog w) (λ x. (true, init_sequence kvs catalog x)) w1
            (ground arith) in
        let last : init_sequence kvs catalog w2 ≡ w1 = ground arith in
        subst (λ (x : World S). HasTables x.store) last
          (init_sequence-HasTables w2
            (subst HasTables (sym (init_tables-true w w2 tables)) (with_tables-HasTables w.store)))
  ]
