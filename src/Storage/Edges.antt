-- ===== src/Storage/Edges.antt =====
-- The methods on edges: `create_edge`, `get_edge`, `delete_edge`, `get_outgoing_edges` and
-- `get_incoming_edges`.
use tsurugi_graph.Base.{
  ℕ, Bool, true, false, not, Option, none, some, List, [], ◌∷◌, ◌++◌, Bytes, if◌then◌else◌, ltb,
  length, drop, has_prefix,
}
use tsurugi_graph.Keys.{to_key, from_key_ptr}
use tsurugi_graph.Records.{
  EdgeData, EdgeRead, found, rejected, out_of_bounds, encode_edge, decode_edge,
}
use tsurugi_graph.Kvs.{Kvs, create, create_or_update, prefixed_inclusive}
use tsurugi_graph.Storage.State.{Storage, World, mark, is_open}
use tsurugi_graph.Storage.Ids.{allocate_id}

-- The key of the out index under the edge's source, and of the in index under its target.
abbrev pub edge_key : ℕ → ℕ → Bytes
edge_key node_id edge_id = to_key node_id ++ to_key edge_id

-- The loop over the entries of a scan: a short key is passed over, a foreign prefix ends it.
unfoldable pub edge_ids : Bytes → List (Bytes × Bytes) → List ℕ
edge_ids prefix [] = []
edge_ids prefix ((key, value) ∷ es) =
    let rest = edge_ids prefix es in
    if ltb (length key) 16
    then rest
    else if has_prefix prefix key
    then from_key_ptr (drop 8 key) ∷ rest
    else []

module _ {S : Type 0} (kvs : Kvs S) where
  -- `rejected` is the result false.
  unfoldable pub get_edge : ℕ → ℕ → World S → EdgeRead
  get_edge tx edge_id w =
      if is_open tx w.store.edges_handle
      then (elim (kvs.content_get w.db w.store.edges_handle (to_key edge_id)) [
        | none ↦ rejected
        | some value ↦ decode_edge value
      ])
      else rejected

  -- Whether `get_edge` reads behind the end of the value, which is undefined behaviour.
  unfoldable pub reads_behind : ℕ → ℕ → World S → Bool
  unfolding get_edge
  reads_behind tx edge_id w = elim (get_edge tx edge_id w) [
    | found e ↦ false
    | rejected ↦ false
    | out_of_bounds ↦ true
  ]

  -- The two index entries of a new edge. A failure is only logged.
  unfoldable pub index_edge : Storage → ℕ → EdgeData → S → S
  index_edge st id e db =
      let db1 =
        (kvs.content_put db st.out_index_handle (edge_key e.from_id id) (to_key e.to_id)
          create).1 in
      (kvs.content_put db1 st.in_index_handle (edge_key e.to_id id) (to_key e.from_id) create).1

  unfoldable pub create_edge : ℕ → EdgeData → World S → Bool × ℕ × World S
  create_edge tx e w =
      let (id, w1) = allocate_id kvs w in
      let (ok, db) =
        kvs.content_put w1.db w1.store.edges_handle (to_key id) (encode_edge e) create in
      if not (is_open tx w.store.edges_handle)
      then (false, 0, w)
      else if ok
      then (true, id, record w1 { db = index_edge w1.store id e db })
      else (false, id, record w1 { db = db })

  -- The writes of `delete_edge`, once the edge is read: empty values, and no entry is removed.
  unfoldable pub erase_edge : Storage → ℕ → EdgeData → S → Bool × S
  erase_edge st id e db =
      let db1 =
        (kvs.content_put db st.out_index_handle (edge_key e.from_id id) [] create_or_update).1 in
      let db2 =
        (kvs.content_put db1 st.in_index_handle (edge_key e.to_id id) [] create_or_update).1 in
      kvs.content_put db2 st.edges_handle (to_key id) [] create_or_update

  -- A read behind the end of the value marks the world.
  unfoldable pub delete_edge : ℕ → ℕ → World S → Bool × World S
  delete_edge tx edge_id w = elim (get_edge tx edge_id w) [
    | rejected ↦ (false, w)
    | out_of_bounds ↦ (false, mark true w)
    | found e ↦ let (ok, db) = erase_edge w.store edge_id e w.db in (ok, record w { db = db })
  ]

  -- Both directions, on the handle of the index.
  unfoldable pub scan_edges : ℕ → ℕ → ℕ → S → Option (List ℕ)
  scan_edges tx handle node_id db =
      let prefix = to_key node_id in
      if is_open tx handle
      then (elim (kvs.content_scan db handle prefix prefixed_inclusive prefix prefixed_inclusive) [
        | none ↦ none
        | some es ↦ some (edge_ids prefix es)
      ])
      else none

  unfoldable pub get_outgoing_edges : ℕ → ℕ → World S → Option (List ℕ)
  unfolding scan_edges
  get_outgoing_edges tx node_id w = scan_edges tx w.store.out_index_handle node_id w.db

  unfoldable pub get_incoming_edges : ℕ → ℕ → World S → Option (List ℕ)
  unfolding scan_edges
  get_incoming_edges tx node_id w = scan_edges tx w.store.in_index_handle node_id w.db
