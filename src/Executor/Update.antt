-- ===== src/Executor/Update.antt =====
-- `execute_delete` and `execute_set`.
pub mod Deletes
pub mod Stale
pub mod Sets
use tsurugi_graph.Base.{
  ℕ, Bool, false, Option, none, some, List, [], ◌∷◌, Bytes, if◌then◌else◌, find, erase, find_id,
  assign_id,
}
use tsurugi_graph.Ast.{
  Expression, literal, variable, property_access, binary, list_literal, map_literal, Assignment,
}
use tsurugi_graph.Json.Value.{update_json_property}
use tsurugi_graph.Kvs.{Kvs}
use tsurugi_graph.Storage.State.{World}
use tsurugi_graph.Storage.Nodes.{get_node, update_node, update_node_with_label, delete_node}
use tsurugi_graph.Storage.Edges.{get_outgoing_edges, get_incoming_edges, delete_edge}
use tsurugi_graph.Executor.State.{Executor, Status, done, threw, or_empty, label_of}
use tsurugi_graph.Executor.Match.{is_empty}

module _ {S : Type 0} (kvs : Kvs S) (tx : ℕ) where
  unfoldable pub delete_edges : List ℕ → World S → World S
  delete_edges [] w = w
  delete_edges (eid ∷ eids) w = delete_edges eids (delete_edge kvs tx eid w).1

  -- With DETACH both lists of edges are read before an edge is deleted.
  unfoldable pub detach_node : Bool → ℕ → World S → World S
  unfolding delete_edges
  detach_node detach id w =
      let out_edges = or_empty (get_outgoing_edges kvs tx id w) in
      let in_edges = or_empty (get_incoming_edges kvs tx id w) in
      if detach then delete_edges in_edges (delete_edges out_edges w) else w

  -- A node with a text is deleted as a node, with no label; anything else as an edge.
  unfoldable pub delete_one : Bool → ℕ → World S → World S
  unfolding detach_node
  delete_one detach id w =
      let as_node = (delete_node kvs tx id [] (detach_node detach id w)).1 in
      let as_edge = (delete_edge kvs tx id w).1 in
      elim (get_node kvs tx id w) [
        | none ↦ as_edge
        | some props ↦ if is_empty props then as_edge else as_node
      ]

  unfoldable pub delete_ids : Bool → List ℕ → World S → World S
  unfolding delete_one
  delete_ids detach [] w = w
  delete_ids detach (id ∷ ids) w = delete_ids detach ids (delete_one detach id w)

  -- It always returns true.
  unfoldable pub execute_delete : List Bytes → Bool → Executor S → Executor S
  unfolding delete_ids
  execute_delete [] detach ex = ex
  execute_delete (name ∷ names) detach ex = elim (find name ex.context) [
    | none ↦ execute_delete names detach ex
    | some ids ↦
        execute_delete names detach
          (record ex { world = delete_ids detach ids ex.world; context = erase name ex.context })
  ]

-- The label and the text of each node that is assigned to.
abbrev pub Pending : Type 0
Pending = List (ℕ × (Bytes × Bytes))

unfoldable pub assigned_value : Expression → Bytes × Bool
assigned_value (literal v s) = (v, s)
assigned_value (variable n) = ([], false)
assigned_value (property_access v k) = ([], false)
assigned_value (binary l o r) = ([], false)
assigned_value (list_literal es) = ([], false)
assigned_value (map_literal es) = ([], false)

abbrev pub or_new : Option (Bytes × Bytes) → Bytes × Bytes
or_new none = ([], [])
or_new (some p) = p

module _ {S : Type 0} (kvs : Kvs S) (tx : ℕ) where
  -- `pending[id]`, with the node's text read where there is none yet.
  unfoldable pub pending_of : Bytes → ℕ → World S → Pending → Bytes × Bytes
  pending_of label id w pending =
      let (lbl, props) = or_new (find_id id pending) in
      let read = or_empty (get_node kvs tx id w) in
      if is_empty props then (label, read) else (lbl, props)

  -- One assignment to the nodes of its variable. `none` is an exception.
  unfoldable pub assign_ids : Assignment → Bytes → List ℕ → World S → Pending → Option Pending
  unfolding pending_of assigned_value
  assign_ids a label [] w pending = some pending
  assign_ids a label (id ∷ ids) w pending =
      let (lbl, props) = pending_of label id w pending in
      let (value, is_string) = assigned_value a.value in
      elim (update_json_property props a.property value is_string) [
        | none ↦ none
        | some text ↦ assign_ids a label ids w (assign_id id (lbl, text) pending)
      ]

  -- Phase 1.
  unfoldable pub accumulate : List Assignment → Executor S → Pending → Option Pending
  unfolding assign_ids
  accumulate [] ex pending = some pending
  accumulate (a ∷ as') ex pending = elim (find a.variable ex.context) [
    | none ↦ accumulate as' ex pending
    | some ids ↦ elim (assign_ids a (label_of a.variable ex) ids ex.world pending) [
      | none ↦ none
      | some pending1 ↦ accumulate as' ex pending1
    ]
  ]

-- The order in which an `unordered_map` is iterated is not specified: it is a parameter.
module _ {S : Type 0} (kvs : Kvs S) (stod : Bytes → Option ℕ) (iteration : Pending → Pending)
    (tx : ℕ) where
  -- Phase 2.
  unfoldable pub apply_pending : Pending → World S → World S
  apply_pending [] w = w
  apply_pending ((id, (label, props)) ∷ rest) w =
      let plain = (update_node kvs tx id props w).1 in
      let indexed = (update_node_with_label kvs stod tx id label props w).1 in
      apply_pending rest (if is_empty label then plain else indexed)

  unfoldable pub execute_set : List Assignment → Executor S → Status × Executor S
  unfolding accumulate apply_pending
  execute_set assignments ex = elim (accumulate kvs tx assignments ex []) [
    | none ↦ (threw, ex)
    | some pending ↦ (done, record ex { world = apply_pending (iteration pending) ex.world })
  ]
