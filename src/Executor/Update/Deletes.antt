-- ===== src/Executor/Update/Deletes.antt =====
-- What DELETE leaves of the nodes of its variables.
use tsurugi_graph.Base.{
  has, ℕ, ◌≡◌, refl, sym, ap, ◌∙◌, inl, inr, Bool, true, false, some, List, [], ◌∷◌, arith, Bytes,
  eq_bytes, eq_bytes_iff, eq_bytes_refl, find, find-erase, contains, ◌==◌, ==_refl, ==_iff,
  Bool-cases, Option-cases,
}
use mathlib.Core.Path.{subst}
use tsurugi_graph.Keys.{to_key}
use tsurugi_graph.Kvs.{Kvs, IsKvs, IsReliable, PutOperation, create_or_update, same_key}
use tsurugi_graph.Records.{EdgeData, EdgeRead, found, rejected, out_of_bounds}
use tsurugi_graph.Storage.State.{World, is_open}
use tsurugi_graph.Storage.Nodes.{get_node, delete_node}
use tsurugi_graph.Storage.Edges.{
  get_edge, erase_edge, delete_edge, get_outgoing_edges, get_incoming_edges,
}
use tsurugi_graph.Executor.State.{Executor, or_empty}
use tsurugi_graph.Executor.Update.{
  delete_edges, detach_node, delete_one, delete_ids, execute_delete,
}

module _ {S : Type 0} (kvs : Kvs S) (laws : IsKvs kvs) (reliable : IsReliable kvs) (tx : ℕ) where
  -- The node has no text: no record, or an empty one.
  abbrev pub Blank : ℕ → World S → Type 0
  Blank id w = or_empty (kvs.content_get w.db w.store.nodes_handle (to_key id)) ≡ []

  blank-put :
      (s : S) (h : ℕ) (k : Bytes) (op : PutOperation) (g : ℕ) (j : Bytes)
      → or_empty (kvs.content_get s g j) ≡ []
      → or_empty (kvs.content_get (kvs.content_put s h k [] op).1 g j) ≡ []
  blank-put s h k op g j b = elim (Bool-cases (kvs.content_put s h k [] op).0) [
    | inl ok ↦
        rw (laws.get_put s h k [] op ok g j)
          (elim (Bool-cases (same_key h k g j)) [ inl e ↦ rw e refl | inr e ↦ rw e b ])
    | inr failed ↦ rw (laws.get_put_failed s h k [] op failed g j) b
  ]

  -- The object stays, and a node without a text has none afterwards.
  record Keeps (w w1 : World S) : Type 0 where
    same : w1.store ≡ w.store
    kept : (id : ℕ) → Blank id w → Blank id w1

  Keeps-refl : (w : World S) → Keeps w w
  Keeps-refl w = record { same = refl; kept = λ id b. b }

  Keeps-trans : (w w1 w2 : World S) → Keeps w w1 → Keeps w1 w2 → Keeps w w2
  Keeps-trans w w1 w2 h k = record {
    same = k.same ∙ h.same;
    kept = λ id b. k.kept id (h.kept id b);
  }

  erase_edge-Keeps :
      (id : ℕ) (e : EdgeData) (w : World S)
      → Keeps w (record w { db = (erase_edge kvs w.store id e w.db).1 })
  unfolding erase_edge
  erase_edge-Keeps id e w = record {
    same = refl;
    kept = λ j b. blank-put _ _ _ _ _ _ (blank-put _ _ _ _ _ _ (blank-put _ _ _ _ _ _ b));
  }

  read_edge-Keeps :
      (id : ℕ) (w : World S) (r : EdgeRead)
      → get_edge kvs tx id w ≡ r
      → Keeps w (delete_edge kvs tx id w).1
  unfolding delete_edge
  read_edge-Keeps id w rejected e = rw (e, delete_edge) (Keeps-refl w)
  read_edge-Keeps id w out_of_bounds e =
      rw (e, delete_edge) (record { same = refl; kept = λ j b. b })
  read_edge-Keeps id w (found edge) e = rw (e, delete_edge) (erase_edge-Keeps id edge w)

  delete_edge-Keeps : (id : ℕ) (w : World S) → Keeps w (delete_edge kvs tx id w).1
  delete_edge-Keeps id w = read_edge-Keeps id w (get_edge kvs tx id w) refl

  delete_edges-Keeps : (ids : List ℕ) (w : World S) → Keeps w (delete_edges kvs tx ids w)
  unfolding delete_edges
  delete_edges-Keeps [] w = Keeps-refl w
  delete_edges-Keeps (id ∷ ids) w =
      Keeps-trans w _ _ (delete_edge-Keeps id w) (delete_edges-Keeps ids _)

  detach_node-Keeps :
      (detach : Bool) (id : ℕ) (w : World S) → Keeps w (detach_node kvs tx detach id w)
  unfolding detach_node
  detach_node-Keeps false id w = Keeps-refl w
  detach_node-Keeps true id w =
      let out_edges = or_empty (get_outgoing_edges kvs tx id w) in
      let in_edges = or_empty (get_incoming_edges kvs tx id w) in
      Keeps-trans w _ _ (delete_edges-Keeps out_edges w) (delete_edges-Keeps in_edges _)

  delete_node-Keeps : (id : ℕ) (w : World S) → Keeps w (delete_node kvs tx id [] w).1
  unfolding delete_node eq_bytes
  delete_node-Keeps id w = elim (Bool-cases (is_open tx w.store.nodes_handle)) [
    | inl e ↦ rw e (record { same = refl; kept = λ j b. blank-put _ _ _ _ _ _ b })
    | inr e ↦ rw e (Keeps-refl w)
  ]

  delete_node-Blank :
      (id : ℕ) (w : World S)
      → is_open tx w.store.nodes_handle ≡ true
      → Blank id (delete_node kvs tx id [] w).1
  unfolding delete_node eq_bytes
  delete_node-Blank id w op =
      let st = w.store in
      let ok = reliable.update_ok w.db st.nodes_handle (to_key id) [] in
      rw op (
        rw
          (laws.get_put w.db st.nodes_handle (to_key id) [] create_or_update ok st.nodes_handle
            (to_key id))
          (rw (==_refl st.nodes_handle) (rw (eq_bytes_refl (to_key id)) refl)))

  deleted_node-Keeps :
      (detach : Bool) (id : ℕ) (w : World S)
      → Keeps w (delete_node kvs tx id [] (detach_node kvs tx detach id w)).1
  deleted_node-Keeps detach id w =
      Keeps-trans w _ _ (detach_node-Keeps detach id w) (delete_node-Keeps id _)

  delete_one-Keeps :
      (detach : Bool) (id : ℕ) (w : World S) → Keeps w (delete_one kvs tx detach id w)
  unfolding delete_one
  delete_one-Keeps detach id w = elim (Option-cases (get_node kvs tx id w)) [
    | inl e ↦ rw (e, delete_one) (delete_edge-Keeps id w)
    | inr (text, e) ↦ elim (Bool-cases (eq_bytes text [])) [
      | inl empty ↦ rw (e, delete_one) (rw empty (delete_edge-Keeps id w))
      | inr full ↦ rw (e, delete_one) (rw full (deleted_node-Keeps detach id w))
    ]
  ]

  -- A node that is read without a text is blank.
  read-Blank :
      (id : ℕ) (w : World S)
      → is_open tx w.store.nodes_handle ≡ true
      → or_empty (get_node kvs tx id w) ≡ []
      → Blank id w
  unfolding get_node
  read-Blank id w op h =
      let read : get_node kvs tx id w ≡ kvs.content_get w.db w.store.nodes_handle (to_key id) =
        rw op refl in
      ap or_empty (sym read) ∙ h

  delete_one-Blank :
      (detach : Bool) (id : ℕ) (w : World S)
      → is_open tx w.store.nodes_handle ≡ true
      → Blank id (delete_one kvs tx detach id w)
  unfolding delete_one
  delete_one-Blank detach id w op = elim (Option-cases (get_node kvs tx id w)) [
    | inl e ↦ rw (e, delete_one) ((delete_edge-Keeps id w).kept id (read-Blank id w op (rw e refl)))
    | inr (text, e) ↦ elim (Bool-cases (eq_bytes text [])) [
      | inl empty ↦
          rw (e, delete_one)
            (rw empty (
              (delete_edge-Keeps id w).kept id
                (read-Blank id w op (rw e ((eq_bytes_iff text []).0 empty)))))
      | inr full ↦
          let opened : is_open tx (detach_node kvs tx detach id w).store.nodes_handle ≡ true =
            rw (detach_node-Keeps detach id w).same op in
          rw (e, delete_one)
            (rw full (delete_node-Blank id (detach_node kvs tx detach id w) opened))
    ]
  ]

  delete_ids-Keeps :
      (detach : Bool) (ids : List ℕ) (w : World S) → Keeps w (delete_ids kvs tx detach ids w)
  unfolding delete_ids
  delete_ids-Keeps detach [] w = Keeps-refl w
  delete_ids-Keeps detach (id ∷ ids) w =
      Keeps-trans w _ _ (delete_one-Keeps detach id w) (delete_ids-Keeps detach ids _)

  delete_ids-Blank :
      (detach : Bool) (ids : List ℕ) (id : ℕ) (w : World S)
      → is_open tx w.store.nodes_handle ≡ true
      → contains id ids ≡ true
      → Blank id (delete_ids kvs tx detach ids w)
  unfolding delete_ids contains
  delete_ids-Blank detach [] id w op h = absurd (ground arith)
  delete_ids-Blank detach (j ∷ ids) id w op h = elim (Bool-cases (j == id)) [
    | inl e ↦
        let same : j ≡ id = (==_iff j id).0 e in
        (delete_ids-Keeps detach ids _).kept id (
          subst (λ i. Blank i (delete_one kvs tx detach j w)) same (delete_one-Blank detach j w op))
    | inr e ↦
        delete_ids-Blank detach ids id _ (rw (delete_one-Keeps detach j w).same op) (ground arith)
  ]

  execute_delete-Keeps :
      (names : List Bytes) (detach : Bool) (ex : Executor S)
      → Keeps ex.world (execute_delete kvs tx names detach ex).world
  unfolding execute_delete
  execute_delete-Keeps [] detach ex = Keeps-refl ex.world
  execute_delete-Keeps (name ∷ names) detach ex = elim (Option-cases (find name ex.context)) [
    | inl e ↦ rw (e, execute_delete) (execute_delete-Keeps names detach ex)
    | inr (ids, e) ↦
        rw (e, execute_delete)
          (Keeps-trans ex.world _ _ (delete_ids-Keeps detach ids ex.world)
            (execute_delete-Keeps names detach _))
  ]

  execute_delete-Blank_from :
      (names : List Bytes) (name : Bytes) (detach : Bool) (ids : List ℕ) (id : ℕ) (ex : Executor S)
      → is_open tx ex.world.store.nodes_handle ≡ true
      → has name names ≡ true
      → find name ex.context ≡ some ids
      → contains id ids ≡ true
      → Blank id (execute_delete kvs tx names detach ex).world
  unfolding execute_delete has
  execute_delete-Blank_from [] name detach ids id ex op h f c = absurd (ground arith)
  execute_delete-Blank_from (m ∷ ms) name detach ids id ex op h f c =
      elim (Bool-cases (eq_bytes m name)) [
        | inl e ↦
            let here : find m ex.context ≡ some ids = rw ((eq_bytes_iff m name).0 e) f in
            rw (here, execute_delete)
              ((execute_delete-Keeps ms detach _).kept id
                (delete_ids-Blank detach ids id ex.world op c))
        | inr ne ↦ elim (Option-cases (find m ex.context)) [
          | inl e ↦
              rw (e, execute_delete)
                (execute_delete-Blank_from ms name detach ids id ex op (ground arith) f c)
          | inr (other, e) ↦
              rw (e, execute_delete)
                (execute_delete-Blank_from ms name detach ids id _
                  (rw (delete_ids-Keeps detach other ex.world).same op) (ground arith)
                  (find-erase m name ex.context ∙ rw ne f) c)
        ]
      ]

  -- On a store where no write fails but a CREATE on a key that exists, with an open transaction and
  -- an open table of nodes: after DELETE of several variables, with or without DETACH, no id that
  -- one of them stood for has a node with a text.
  pub execute_delete-Blank :
      (names : List Bytes) (name : Bytes) (detach : Bool) (ids : List ℕ) (id : ℕ) (ex : Executor S)
      → is_open tx ex.world.store.nodes_handle ≡ true
      → has name names ≡ true
      → find name ex.context ≡ some ids
      → contains id ids ≡ true
      → or_empty (get_node kvs tx id (execute_delete kvs tx names detach ex).world) ≡ []
  unfolding get_node
  execute_delete-Blank names name detach ids id ex op h f c =
      let opened : is_open tx (execute_delete kvs tx names detach ex).world.store.nodes_handle
          ≡ true =
        rw (execute_delete-Keeps names detach ex).same op in
      rw opened (execute_delete-Blank_from names name detach ids id ex op h f c)
