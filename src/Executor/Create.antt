-- ===== src/Executor/Create.antt =====
-- `execute_create`.
use tsurugi_graph.Base.{
  ℕ, Bool, true, false, not, Option, none, some, List, [], ◌∷◌, Bytes, bytes, if◌then◌else◌,
  eq_bytes, find, assign,
}
use tsurugi_graph.Ast.{PatternNode, PatternRelationship, PatternElement, PatternPath}
use tsurugi_graph.Kvs.{Kvs}
use tsurugi_graph.Records.{EdgeData}
use tsurugi_graph.Storage.Nodes.{create_node}
use tsurugi_graph.Storage.Edges.{create_edge}
use tsurugi_graph.Executor.State.{Executor, evaluate_properties}

-- The first id that a variable stands for: none for the empty name and for an empty list.
unfoldable pub first_id : Bytes → List (Bytes × List ℕ) → Option ℕ
first_id name context =
    if eq_bytes name []
    then none
    else (elim (find name context) [ none ↦ none | some [] ↦ none | some (id ∷ ids) ↦ some id ])

-- `if (!variable.empty()) context_[variable] = {id};`
abbrev pub bind_one : Bytes → ℕ → List (Bytes × List ℕ) → List (Bytes × List ℕ)
bind_one name id context = if eq_bytes name [] then context else assign name (id ∷ []) context

module _ {S : Type 0} (kvs : Kvs S) (stod : Bytes → Option ℕ) (tx : ℕ) where
  -- The node of a pattern: the one that its variable stands for, or a new one.
  unfoldable pub resolve_node : PatternNode → Executor S → Bool × ℕ × Executor S
  unfolding first_id
  resolve_node node ex =
      let props = evaluate_properties ex.unwind_context node.properties in
      let (ok, id, w) = create_node kvs stod tx node.label props ex.world in
      elim (first_id node.variable ex.context) [
        | some known ↦ (true, known, ex)
        | none ↦
            if ok
            then (true, id, record ex { world = w; context = bind_one node.variable id ex.context })
            else (false, id, record ex { world = w })
      ]

  -- The edge between two nodes; `<-` swaps its ends.
  unfoldable pub create_relationship : PatternRelationship → ℕ → ℕ → Executor S → Bool × Executor S
  create_relationship rel node_id next_id ex =
      let backwards = eq_bytes rel.direction (bytes "<-") in
      let edge : EdgeData = record {
        from_id = if backwards then next_id else node_id;
        to_id = if backwards then node_id else next_id;
        label = rel.type;
        properties = evaluate_properties ex.unwind_context rel.properties;
      } in
      let (ok, id, w) = create_edge kvs tx edge ex.world in
      if ok
      then (true, record ex { world = w; context = bind_one rel.variable id ex.context })
      else (false, record ex { world = w })

  -- One round of the loop over a path, at an element that has a next one: the node, and where
  -- there is a relationship the next node and the edge.
  unfoldable pub create_hop : PatternElement → PatternElement → Executor S → Bool × Executor S
  create_hop e next ex =
      let (ok, node_id, ex1) = resolve_node e.node ex in
      let (ok2, next_id, ex2) = resolve_node next.node ex1 in
      if not ok then (false, ex1) else (elim e.relationship [
        | none ↦ (true, ex1)
        | some rel ↦ if ok2 then create_relationship rel node_id next_id ex2 else (false, ex2)
      ])

  unfoldable pub create_path : PatternPath → Executor S → Bool × Executor S
  create_path [] ex = (true, ex)
  create_path (e ∷ []) ex = let (ok, id, ex1) = resolve_node e.node ex in (ok, ex1)
  create_path (e ∷ next ∷ es) ex =
      let (ok, ex1) = create_hop e next ex in
      let rest = create_path (next ∷ es) ex1 in if ok then rest else (false, ex1)

  unfoldable pub execute_create : List PatternPath → Executor S → Bool × Executor S
  execute_create [] ex = (true, ex)
  execute_create (p ∷ ps) ex =
      let (ok, ex1) = create_path p ex in
      let rest = execute_create ps ex1 in if ok then rest else (false, ex1)
