-- ===== src/Storage/Nodes.antt =====
-- The methods on nodes: `create_node`, `get_node`, `update_node`, `update_node_with_label`,
-- `delete_node` and `get_nodes_batch`.
use tsurugi_graph.Base.{
  ℕ, Bool, true, false, not, Option, none, some, List, [], ◌∷◌, ◌++◌, Bytes, if◌then◌else◌,
  eq_bytes,
}
use tsurugi_graph.Keys.{to_key}
use tsurugi_graph.Json.Parse.{parse_json_properties}
use tsurugi_graph.Kvs.{Kvs, create, create_or_update}
use tsurugi_graph.Storage.State.{Storage, World, is_open}
use tsurugi_graph.Storage.Ids.{allocate_id}
use tsurugi_graph.Storage.Index.Write.{index_node_properties, update_entries, has_properties}

abbrev pub label_key : Bytes → ℕ → Bytes
label_key label node_id = label ++ to_key node_id

module _ {S : Type 0} (kvs : Kvs S) where
  -- The text that `get_node` writes to `out_properties`, where it returns true.
  unfoldable pub get_node : ℕ → ℕ → World S → Option Bytes
  get_node tx node_id w =
      if is_open tx w.store.nodes_handle
      then kvs.content_get w.db w.store.nodes_handle (to_key node_id)
      else none

  unfoldable pub update_node : ℕ → ℕ → Bytes → World S → Bool × World S
  update_node tx node_id properties w =
      if is_open tx w.store.nodes_handle
      then (let (ok, db) =
            kvs.content_put w.db w.store.nodes_handle (to_key node_id) properties
              create_or_update in
          (ok, record w { db = db }))
      else (false, w)

  -- The label's entry is overwritten with an empty value, and so is the node: nothing is removed
  -- from the tables.
  unfoldable pub delete_node : ℕ → ℕ → Bytes → World S → Bool × World S
  delete_node tx node_id label w =
      let st = w.store in
      let unlabelled =
        if eq_bytes label []
        then w.db
        else (kvs.content_put w.db st.label_index_handle (label_key label node_id) []
            create_or_update).1 in
      let (ok, db) =
        kvs.content_put unlabelled st.nodes_handle (to_key node_id) [] create_or_update in
      if is_open tx st.nodes_handle then (ok, record w { db = db }) else (false, w)

  -- The ids whose record is there, with the record.
  unfoldable pub read_nodes : Storage → S → List ℕ → List (ℕ × Bytes)
  read_nodes st db [] = []
  read_nodes st db (id ∷ ids) = elim (kvs.content_get db st.nodes_handle (to_key id)) [
    | none ↦ read_nodes st db ids
    | some value ↦ (id, value) ∷ read_nodes st db ids
  ]

  unfoldable pub get_nodes_batch : ℕ → List ℕ → World S → Option (List (ℕ × Bytes))
  unfolding read_nodes
  get_nodes_batch tx ids w =
      if is_open tx w.store.nodes_handle then some (read_nodes w.store w.db ids) else none

module _ {S : Type 0} (kvs : Kvs S) (stod : Bytes → Option ℕ) where
  -- The part of `create_node` behind the write of the node: the label index, then the properties.
  unfoldable pub index_new_node : ℕ → ℕ → Bytes → Bytes → World S → World S
  index_new_node tx id label properties w =
      let st = w.store in
      let (ok, db) = kvs.content_put w.db st.label_index_handle (label_key label id) [] create in
      let w1 : World S = record w { db = db } in
      let w2 =
        if has_properties properties
        then (index_node_properties kvs stod tx id label properties w1).1
        else w1 in
      if eq_bytes label [] then w else w2

  -- The flag, the id that `out_id` gets (it keeps its 0 where nothing is open), and the world.
  unfoldable pub create_node : ℕ → Bytes → Bytes → World S → Bool × ℕ × World S
  create_node tx label properties w =
      let (id, w1) = allocate_id kvs w in
      let (ok, db) = kvs.content_put w1.db w1.store.nodes_handle (to_key id) properties create in
      let w2 : World S = record w1 { db = db } in
      if not (is_open tx w.store.nodes_handle)
      then (false, 0, w)
      else if ok
      then (true, id, index_new_node tx id label properties w2)
      else (false, id, w2)

  -- The part of `update_node_with_label` that keeps the index.
  unfoldable pub reindex_node : ℕ → ℕ → Bytes → Bytes → Option Bytes → World S → World S
  reindex_node tx node_id label new_properties old w =
      let fresh =
        if has_properties new_properties
        then (index_node_properties kvs stod tx node_id label new_properties w).1
        else w in
      elim old [
        | none ↦ fresh
        | some old_properties ↦
            if has_properties old_properties
            then record w {
              db =
                  update_entries kvs stod w.store node_id label
                    (parse_json_properties old_properties) (parse_json_properties new_properties)
                    w.db;
            }
            else fresh
      ]

  unfoldable pub update_node_with_label : ℕ → ℕ → Bytes → Bytes → World S → Bool × World S
  update_node_with_label tx node_id label new_properties w =
      let old = get_node kvs tx node_id w in
      let w1 =
        if eq_bytes label [] then w else reindex_node tx node_id label new_properties old w in
      let (ok, db) =
        kvs.content_put w1.db w1.store.nodes_handle (to_key node_id) new_properties
          create_or_update in
      if is_open tx w.store.nodes_handle then (ok, record w1 { db = db }) else (false, w)
