-- ===== src/Storage/NodeReads.antt =====
-- What `create_node`, `update_node` and `delete_node` leave to read.
use tsurugi_graph.Base.{
  ℕ, ◌^◌, ◌<◌, ◌≡◌, ◌≢◌, refl, sym, ap, ◌∙◌, inl, inr, Bool, true, false, not, Option, some, List,
  [], ◌∷◌, arith, Bytes, ◌==◌, if◌then◌else◌, Bool-cases, Option-cases, eq_bytes, eq_bytes_iff,
}
use tsurugi_graph.Keys.{to_key, to_key-injective}
use tsurugi_graph.Json.Parse.{parse_json_properties}
use tsurugi_graph.Kvs.{Kvs, IsKvs, create}
use tsurugi_graph.Storage.State.{Storage, World, is_open}
use tsurugi_graph.Storage.Ids.{allocate_id}
use tsurugi_graph.Storage.Frame.{
  HasTables, SameHandles, SameHandles-allocate_id, get-put_ne, get-put_table, get-put_self,
  get-allocate_id,
}
use tsurugi_graph.Storage.Index.Write.{
  add_entry, add_entries, remove_entry, remove_entries, update_entries, changed, to_map,
  index_node_properties,
}
use tsurugi_graph.Storage.Index.Key.{build_prop_index_key}
use tsurugi_graph.Storage.Nodes.{label_key, get_node, create_node, index_new_node}

module _ {S : Type 0} (kvs : Kvs S) (laws : IsKvs kvs) (stod : Bytes → Option ℕ) where
  module _ (st : Storage) (g : ℕ) (j : Bytes) (apart : st.property_index_handle == g ≡ false) where
    get-add_entry :
        (id : ℕ) (label : Bytes) (e : Bytes × Bytes) (db : S)
        → kvs.content_get (add_entry kvs stod st id label e db) g j ≡ kvs.content_get db g j
    unfolding add_entry
    get-add_entry id label e db = elim (Bool-cases first.0) [
      | inl ok ↦ rw ok step
      | inr failed ↦ rw failed (get-put_table kvs laws first.1 _ key _ _ g j apart ∙ step)
    ]
      where
        key : Bytes
        key = build_prop_index_key stod label e.0 e.1

        first : Bool × S
        first = kvs.content_put db st.property_index_handle key (to_key id) create

        step : kvs.content_get first.1 g j ≡ kvs.content_get db g j
        step = get-put_table kvs laws db _ key (to_key id) create g j apart

    get-add_entries :
        (id : ℕ) (label : Bytes) (es : List (Bytes × Bytes)) (db : S)
        → kvs.content_get (add_entries kvs stod st id label es db) g j ≡ kvs.content_get db g j
    unfolding add_entries
    get-add_entries id label [] db = refl
    get-add_entries id label (e ∷ es) db =
        get-add_entries id label es (add_entry kvs stod st id label e db)
        ∙ get-add_entry id label e db

    get-remove_entry :
        (id : ℕ) (label : Bytes) (e : Bytes × Bytes) (db : S)
        → kvs.content_get (remove_entry kvs stod st id label e db) g j ≡ kvs.content_get db g j
    unfolding remove_entry
    get-remove_entry id label e db =
        elim (Option-cases (kvs.content_get db st.property_index_handle key)) [
          | inl absent ↦ rw (absent, remove_entry) refl
          | inr (packed, found) ↦
              rw (found, remove_entry) (get-put_table kvs laws db _ key _ _ g j apart)
        ]
      where
        key : Bytes
        key = build_prop_index_key stod label e.0 e.1

    get-remove_entries :
        (id : ℕ) (label : Bytes) (es : List (Bytes × Bytes)) (db : S)
        → kvs.content_get (remove_entries kvs stod st id label es db) g j ≡ kvs.content_get db g j
    unfolding remove_entries
    get-remove_entries id label [] db = refl
    get-remove_entries id label (e ∷ es) db =
        get-remove_entries id label es (remove_entry kvs stod st id label e db)
        ∙ get-remove_entry id label e db

    -- Keeping the property index touches no other table.
    pub get-update_entries :
        (id : ℕ) (label : Bytes) (old new : List (Bytes × Bytes)) (db : S)
        → kvs.content_get (update_entries kvs stod st id label old new db) g j
          ≡ kvs.content_get db g j
    unfolding update_entries
    get-update_entries id label old new db =
        let old_map = to_map [] old in
        let new_map = to_map [] new in
        let removed = changed new_map old_map in
        get-add_entries id label (changed old_map new_map)
          (remove_entries kvs stod st id label removed db)
        ∙ get-remove_entries id label removed db

  module _ (w : World S) (tables : HasTables w.store) (tx : ℕ) (j : Bytes) where
    abbrev nodes_in : World S → Option Bytes
    nodes_in v = kvs.content_get v.db w.store.nodes_handle j

    nodes-index_node_properties :
        (id : ℕ) (label properties : Bytes)
        → nodes_in (index_node_properties kvs stod tx id label properties w).1 ≡ nodes_in w
    unfolding index_node_properties
    nodes-index_node_properties id label properties = ground (
      arith,
      get-add_entries w.store w.store.nodes_handle j tables.property_nodes id label
          (parse_json_properties properties) w.db,
    )

    pub store-index_node_properties :
        (id : ℕ) (label properties : Bytes)
        → (index_node_properties kvs stod tx id label properties w).1.store ≡ w.store
    unfolding index_node_properties
    store-index_node_properties id label properties = ground arith

  module _ (w : World S) (tables : HasTables w.store) (tx : ℕ) (j : Bytes) where
    labelled : ℕ → Bytes → World S
    labelled id label = record w {
      db = (kvs.content_put w.db w.store.label_index_handle (label_key label id) [] create).1;
    }

    nodes-index_new_node :
        (id : ℕ) (label properties : Bytes)
        → kvs.content_get
            (index_new_node kvs stod tx id label properties w).db
            w.store.nodes_handle
            j
          ≡ kvs.content_get w.db w.store.nodes_handle j
    unfolding index_new_node labelled
    nodes-index_new_node id label properties = ground (
      arith,
      get-put_table kvs laws w.db w.store.label_index_handle (label_key label id) [] create
          w.store.nodes_handle j tables.label_nodes,
      nodes-index_node_properties (labelled id label) tables tx j id label properties,
    )

    store-index_new_node :
        (id : ℕ) (label properties : Bytes)
        → (index_new_node kvs stod tx id label properties w).store ≡ w.store
    unfolding index_new_node labelled
    store-index_new_node id label properties =
        ground
          (arith, store-index_node_properties (labelled id label) tables tx j id label properties)

  HasTables-same : (st st' : Storage) → SameHandles st' st → HasTables st → HasTables st'
  HasTables-same st st' same t = ground arith

  module _ (tx : ℕ) (w : World S) (tables : HasTables w.store) (label properties : Bytes) where
    fresh : World S
    fresh = (allocate_id kvs w).1

    fresh_id : ℕ
    fresh_id = (allocate_id kvs w).0

    written : Bool × S
    written = kvs.content_put fresh.db fresh.store.nodes_handle (to_key fresh_id) properties create

    unindexed : World S
    unindexed = record fresh { db = written.1 }

    tables_after : HasTables fresh.store
    unfolding fresh
    tables_after = HasTables-same w.store _ (SameHandles-allocate_id kvs w) tables

    indexed : World S
    indexed = index_new_node kvs stod tx fresh_id label properties unindexed

    create_node-eq : create_node kvs stod tx label properties w ≡ (
        if not (is_open tx w.store.nodes_handle)
        then (false, 0, w)
        else if written.0
        then (true, fresh_id, indexed)
        else (false, fresh_id, unindexed))
    unfolding create_node fresh fresh_id written unindexed indexed
    create_node-eq = refl

    handle-indexed : indexed.store.nodes_handle ≡ w.store.nodes_handle
    unfolding indexed unindexed fresh tables_after
    handle-indexed =
        ap (λ (st : Storage). st.nodes_handle)
          (store-index_new_node unindexed tables_after tx [] fresh_id label properties)
        ∙ (SameHandles-allocate_id kvs w).nodes

    handle-unindexed : unindexed.store.nodes_handle ≡ w.store.nodes_handle
    unfolding unindexed fresh
    handle-unindexed = (SameHandles-allocate_id kvs w).nodes

    db-unindexed : unindexed.db ≡ written.1
    unfolding unindexed
    db-unindexed = refl

    get-indexed :
        (j : Bytes)
        → kvs.content_get indexed.db w.store.nodes_handle j
          ≡ kvs.content_get written.1 w.store.nodes_handle j
    unfolding indexed unindexed fresh tables_after written
    get-indexed j =
        let same = (SameHandles-allocate_id kvs w).nodes in
        ap (λ h. kvs.content_get indexed.db h j) (sym same)
        ∙ nodes-index_new_node unindexed tables_after tx j fresh_id label properties
        ∙ ap (λ h. kvs.content_get written.1 h j) same

    get-written :
        (j : Bytes)
        → eq_bytes (to_key fresh_id) j ≡ false
        → kvs.content_get written.1 w.store.nodes_handle j
          ≡ kvs.content_get w.db w.store.nodes_handle j
    unfolding written fresh
    get-written j ne =
        get-put_ne kvs laws _ _ (to_key fresh_id) properties create _ j (ground arith)
        ∙ get-allocate_id kvs laws w w.store.nodes_handle j

    get-written_self :
        written.0 ≡ true
        → kvs.content_get written.1 w.store.nodes_handle (to_key fresh_id) ≡ some properties
    unfolding written fresh
    get-written_self ok =
        ap (λ h. kvs.content_get written.1 h (to_key fresh_id))
          (sym (SameHandles-allocate_id kvs w).nodes)
        ∙ get-put_self kvs laws _ _ (to_key fresh_id) properties create ok

    -- Where the tables are there and `create_node` returned true, the node is read back with
    -- its properties, whatever its label, whether or not the indexes could be written.
    pub get_node-create_node :
        (create_node kvs stod tx label properties w).0 ≡ true
        → get_node kvs tx
            (create_node kvs stod tx label properties w).1
            (create_node kvs stod tx label properties w).2
          ≡ some properties
    unfolding get_node
    get_node-create_node ok =
        ground
          (arith, create_node-eq, handle-indexed, get-indexed (to_key fresh_id), get-written_self)

    -- Creating a node, also where it fails, does not change what is read under another id than
    -- the new one, both below 2 ^ 64, where the tables are there.
    pub get_node-create_node_ne :
        (other : ℕ)
        → other < 2 ^ 64
        → (allocate_id kvs w).0 < 2 ^ 64
        → other ≢ (allocate_id kvs w).0
        → get_node kvs tx other (create_node kvs stod tx label properties w).2
          ≡ get_node kvs tx other w
    unfolding get_node fresh_id
    get_node-create_node_ne other small small' ne =
        let key_ne : eq_bytes (to_key fresh_id) (to_key other) ≡ false = grind (
          arith,
          eq_bytes_iff (to_key fresh_id) (to_key other),
          to_key-injective fresh_id other small' small,
        ) in
        ground (
          arith,
          create_node-eq,
          handle-indexed,
          get-indexed (to_key other),
          get-written (to_key other) key_ne,
          handle-unindexed,
          db-unindexed,
        )
