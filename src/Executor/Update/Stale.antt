-- ===== src/Executor/Update/Stale.antt =====
-- What DELETE leaves of the property index.
use tsurugi_graph.Base.{
  ℕ, ◌≡◌, refl, sym, ◌∙◌, inl, inr, Bool, true, false, Option, List, [], ◌∷◌, arith, Bytes,
  eq_bytes, find, ◌==◌, Bool-cases, Option-cases,
}
use mathlib.Core.Path.{subst}
use tsurugi_graph.Kvs.{Kvs, IsKvs, PutOperation}
use tsurugi_graph.Records.{EdgeData, EdgeRead, found, rejected, out_of_bounds}
use tsurugi_graph.Storage.State.{Storage, World, is_open}
use tsurugi_graph.Storage.Frame.{HasTables, get-put_table}
use tsurugi_graph.Storage.Nodes.{get_node, delete_node}
use tsurugi_graph.Storage.Edges.{
  get_edge, erase_edge, delete_edge, get_outgoing_edges, get_incoming_edges,
}
use tsurugi_graph.Storage.Index.Read.{find_nodes_by_property}
use tsurugi_graph.Executor.State.{Executor, or_empty}
use tsurugi_graph.Executor.Update.{
  delete_edges, detach_node, delete_one, delete_ids, execute_delete,
}

module _ {S : Type 0} (kvs : Kvs S) (laws : IsKvs kvs) (tx : ℕ) where
  -- The object and the property index are as before.
  record Leaves (w w1 : World S) : Type 0 where
    same : w1.store ≡ w.store
    index :
        (j : Bytes)
        → kvs.content_get w1.db w.store.property_index_handle j
          ≡ kvs.content_get w.db w.store.property_index_handle j

  Leaves-refl : (w : World S) → Leaves w w
  Leaves-refl w = record { same = refl; index = λ j. refl }

  Leaves-trans : (w w1 w2 : World S) → Leaves w w1 → Leaves w1 w2 → Leaves w w2
  Leaves-trans w w1 w2 h k = record {
    same = k.same ∙ h.same;
    index = λ j.
        subst
          (λ (st : Storage).
            kvs.content_get w2.db st.property_index_handle j
            ≡ kvs.content_get w1.db st.property_index_handle j)
          h.same (k.index j)
        ∙ h.index j;
  }

  -- A write to another table.
  other_table :
      (s : S) (h : ℕ) (k v : Bytes) (op : PutOperation) (g : ℕ) (j : Bytes)
      → g == h ≡ false
      → kvs.content_get (kvs.content_put s h k v op).1 g j ≡ kvs.content_get s g j
  other_table s h k v op g j ne = get-put_table kvs laws s h k v op g j (ground arith)

  erase_edge-Leaves :
      (id : ℕ) (e : EdgeData) (w : World S)
      → HasTables w.store
      → Leaves w (record w { db = (erase_edge kvs w.store id e w.db).1 })
  unfolding erase_edge
  erase_edge-Leaves id e w t = record {
    same = refl;
    index = λ j.
        other_table _ _ _ _ _ _ j t.property_edges
        ∙ other_table _ _ _ _ _ _ j t.property_in
        ∙ other_table _ _ _ _ _ _ j t.property_out;
  }

  read_edge-Leaves :
      (id : ℕ) (w : World S) (r : EdgeRead)
      → HasTables w.store
      → get_edge kvs tx id w ≡ r
      → Leaves w (delete_edge kvs tx id w).1
  unfolding delete_edge
  read_edge-Leaves id w rejected t e = rw (e, delete_edge) (Leaves-refl w)
  read_edge-Leaves id w out_of_bounds t e =
      rw (e, delete_edge) (record { same = refl; index = λ j. refl })
  read_edge-Leaves id w (found edge) t e = rw (e, delete_edge) (erase_edge-Leaves id edge w t)

  delete_edges-Leaves :
      (ids : List ℕ) (w : World S) → HasTables w.store → Leaves w (delete_edges kvs tx ids w)
  unfolding delete_edges
  delete_edges-Leaves [] w t = Leaves-refl w
  delete_edges-Leaves (id ∷ ids) w t =
      let first = read_edge-Leaves id w (get_edge kvs tx id w) t refl in
      Leaves-trans w _ _ first (delete_edges-Leaves ids _ (subst HasTables (sym first.same) t))

  detach_node-Leaves :
      (detach : Bool) (id : ℕ) (w : World S)
      → HasTables w.store
      → Leaves w (detach_node kvs tx detach id w)
  unfolding detach_node
  detach_node-Leaves false id w t = Leaves-refl w
  detach_node-Leaves true id w t =
      let first = delete_edges-Leaves (or_empty (get_outgoing_edges kvs tx id w)) w t in
      Leaves-trans w _ _ first (
        delete_edges-Leaves (or_empty (get_incoming_edges kvs tx id w)) _
          (subst HasTables (sym first.same) t))

  delete_node-Leaves :
      (id : ℕ) (w : World S) → HasTables w.store → Leaves w (delete_node kvs tx id [] w).1
  unfolding delete_node eq_bytes
  delete_node-Leaves id w t = elim (Bool-cases (is_open tx w.store.nodes_handle)) [
    | inl e ↦ rw e (record { same = refl; index = λ j. other_table _ _ _ _ _ _ j t.property_nodes })
    | inr e ↦ rw e (Leaves-refl w)
  ]

  delete_one-Leaves :
      (detach : Bool) (id : ℕ) (w : World S)
      → HasTables w.store
      → Leaves w (delete_one kvs tx detach id w)
  unfolding delete_one
  delete_one-Leaves detach id w t =
      let as_edge = read_edge-Leaves id w (get_edge kvs tx id w) t refl in
      let detached = detach_node-Leaves detach id w t in
      let as_node =
        Leaves-trans w _ _ detached
          (delete_node-Leaves id _ (subst HasTables (sym detached.same) t)) in
      elim (Option-cases (get_node kvs tx id w)) [
        | inl e ↦ rw (e, delete_one) as_edge
        | inr (text, e) ↦ elim (Bool-cases (eq_bytes text [])) [
          | inl empty ↦ rw (e, delete_one) (rw empty as_edge)
          | inr full ↦ rw (e, delete_one) (rw full as_node)
        ]
      ]

  delete_ids-Leaves :
      (detach : Bool) (ids : List ℕ) (w : World S)
      → HasTables w.store
      → Leaves w (delete_ids kvs tx detach ids w)
  unfolding delete_ids
  delete_ids-Leaves detach [] w t = Leaves-refl w
  delete_ids-Leaves detach (id ∷ ids) w t =
      let first = delete_one-Leaves detach id w t in
      Leaves-trans w _ _ first (delete_ids-Leaves detach ids _ (subst HasTables (sym first.same) t))

  execute_delete-Leaves :
      (names : List Bytes) (detach : Bool) (ex : Executor S)
      → HasTables ex.world.store
      → Leaves ex.world (execute_delete kvs tx names detach ex).world
  unfolding execute_delete
  execute_delete-Leaves [] detach ex t = Leaves-refl ex.world
  execute_delete-Leaves (name ∷ names) detach ex t = elim (Option-cases (find name ex.context)) [
    | inl e ↦ rw (e, execute_delete) (execute_delete-Leaves names detach ex t)
    | inr (ids, e) ↦
        let first = delete_ids-Leaves detach ids ex.world t in
        rw (e, execute_delete)
          (Leaves-trans ex.world _ _ first
            (execute_delete-Leaves names detach _ (subst HasTables (sym first.same) t)))
  ]

  same_lookup :
      (stod : Bytes → Option ℕ) (label key value : Bytes) (w w1 : World S)
      → Leaves w w1
      → find_nodes_by_property kvs stod tx label key value w1
        ≡ find_nodes_by_property kvs stod tx label key value w
  unfolding find_nodes_by_property
  same_lookup stod label key value w w1 h = rw h.same (rw (h.index _) refl)

  -- Where the tables are there, DELETE of any variables, with or without DETACH, changes nothing of
  -- what a lookup of the property index finds: the ids of the deleted nodes are found as before.
  pub execute_delete-find_nodes_by_property :
      (stod : Bytes → Option ℕ) (label key value : Bytes) (names : List Bytes) (detach : Bool)
      (ex : Executor S)
      → HasTables ex.world.store
      → find_nodes_by_property kvs stod tx label key value
          (execute_delete kvs tx names detach ex).world
        ≡ find_nodes_by_property kvs stod tx label key value ex.world
  execute_delete-find_nodes_by_property stod label key value names detach ex t =
      same_lookup stod label key value ex.world _ (execute_delete-Leaves names detach ex t)
