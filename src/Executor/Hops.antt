-- ===== src/Executor/Hops.antt =====
-- `execute_match`, the relationships of a path.
use tsurugi_graph.Base.{
  ℕ, Bool, ◌&&◌, ◌||◌, not, Option, none, some, List, [], ◌∷◌, ◌++◌, Bytes, bytes, if◌then◌else◌,
  false, eq_bytes, find, assign, contains,
}
use tsurugi_graph.Ast.{PatternNode, PatternRelationship, PatternPath, PatternElement}
use tsurugi_graph.Kvs.{Kvs}
use tsurugi_graph.Records.{found, rejected, out_of_bounds}
use tsurugi_graph.Storage.State.{World, mark}
use tsurugi_graph.Storage.Scan.{find_nodes_by_label}
use tsurugi_graph.Storage.Edges.{get_edge, reads_behind, get_outgoing_edges, get_incoming_edges}
use tsurugi_graph.Executor.State.{Executor, or_empty, ids_of}
use tsurugi_graph.Executor.Match.{is_empty, match_first}

abbrev pub LabelCache : Type 0
LabelCache = List (Bytes × List ℕ)

-- `is_outgoing`
abbrev pub is_outgoing : PatternRelationship → Bool
is_outgoing rel = not (eq_bytes rel.direction (bytes "<-"))

abbrev pub edges_followed : List (ℕ × ℕ) → List ℕ
edges_followed [] = []
edges_followed ((eid, target) ∷ ps) = eid ∷ edges_followed ps

abbrev pub targets : List (ℕ × ℕ) → List ℕ
targets [] = []
targets ((eid, target) ∷ ps) = target ∷ targets ps

-- `context_[rel.variable].push_back(eid)` for each edge: the variable is left alone where none
-- was followed.
unfoldable pub push_edges : {S : Type 0} → Bytes → List ℕ → Executor S → Executor S
push_edges name [] ex = ex
push_edges name (eid ∷ eids) ex =
    if is_empty name
    then ex
    else record ex { context = assign name (ids_of name ex ++ eid ∷ eids) ex.context }

unfoldable pub bind_targets : {S : Type 0} → PatternNode → List ℕ → Executor S → Executor S
bind_targets {S = S} node ids ex =
    let bound : Executor S = record ex { context = assign node.variable ids ex.context } in
    if is_empty node.variable
    then ex
    else if is_empty node.label
    then bound
    else record bound { context_labels = assign node.variable node.label ex.context_labels }

module _ {S : Type 0} (kvs : Kvs S) (tx : ℕ) where
  -- The label's set of ids is read once for a path; a scan that fails leaves it empty.
  unfoldable pub cache_label : Bytes → World S → LabelCache → LabelCache
  cache_label label w cache =
      let read = assign label (or_empty (find_nodes_by_label kvs tx label w)) cache in
      if is_empty label then cache else (elim (find label cache) [ none ↦ read | some ids ↦ cache ])

  -- The edges of a node in the direction of the relationship.
  unfoldable pub edges_of : PatternRelationship → ℕ → World S → List ℕ
  edges_of rel id w =
      if is_outgoing rel
      then or_empty (get_outgoing_edges kvs tx id w)
      else or_empty (get_incoming_edges kvs tx id w)

  -- The node that an edge leads to, if the edge is read and its type and the node's label fit. An
  -- edge that is read behind the end of its value leads nowhere here, and marks the world in
  -- `follow_relationship`.
  unfoldable pub edge_target :
      PatternRelationship → PatternNode → LabelCache → World S → ℕ → Option ℕ
  edge_target rel next_node cache w eid = elim (get_edge kvs tx eid w) [
    | rejected ↦ none
    | out_of_bounds ↦ none
    | found ed ↦
        let target = if is_outgoing rel then ed.to_id else ed.from_id in
        if not (is_empty rel.type) && not (eq_bytes ed.label rel.type)
        then none
        else if is_empty next_node.label || contains target (or_empty (find next_node.label cache))
        then some target
        else none
  ]

  -- The edges that fit, each with its target, in order.
  unfoldable pub follow_edges :
      PatternRelationship → PatternNode → LabelCache → World S → List ℕ → List (ℕ × ℕ)
  unfolding edge_target
  follow_edges rel next_node cache w [] = []
  follow_edges rel next_node cache w (eid ∷ eids) =
      let rest = follow_edges rel next_node cache w eids in
      elim (edge_target rel next_node cache w eid) [
        | none ↦ rest
        | some target ↦ (eid, target) ∷ rest
      ]

  unfoldable pub follow_all :
      PatternRelationship → PatternNode → LabelCache → World S → List ℕ → List (ℕ × ℕ)
  unfolding follow_edges edges_of
  follow_all rel next_node cache w [] = []
  follow_all rel next_node cache w (id ∷ ids) =
      follow_edges rel next_node cache w (edges_of rel id w) ++ follow_all rel next_node cache w ids

  unfoldable pub any_reads_behind : List ℕ → World S → Bool
  unfolding reads_behind
  any_reads_behind [] w = false
  any_reads_behind (eid ∷ eids) w = reads_behind kvs tx eid w || any_reads_behind eids w

  -- An edge of one of the nodes is read behind the end of its value.
  unfoldable pub follows_behind : PatternRelationship → List ℕ → World S → Bool
  unfolding any_reads_behind edges_of
  follows_behind rel [] w = false
  follows_behind rel (id ∷ ids) w =
      any_reads_behind (edges_of rel id w) w || follows_behind rel ids w

  -- An edge is pushed to the vector that the loop goes through: the relationship has the variable
  -- of the node before it.
  abbrev pub pushes_to_iterated : PatternRelationship → Bytes → List ℕ → Bool
  pushes_to_iterated rel name [] = false
  pushes_to_iterated rel name (eid ∷ eids) = eq_bytes rel.variable name

  -- One relationship, from the ids of the node before it, whose variable is `name`. Both kinds of
  -- undefined behaviour mark the world.
  unfoldable pub follow_relationship :
      Bytes → PatternRelationship → PatternNode → List ℕ → LabelCache → Executor S → Executor S
  unfolding follow_all push_edges bind_targets follows_behind
  follow_relationship name rel next_node ids cache ex =
      let pairs = follow_all rel next_node cache ex.world ids in
      let undefined =
        follows_behind rel ids ex.world || pushes_to_iterated rel name (edges_followed pairs) in
      bind_targets next_node (targets pairs) (
        push_edges rel.variable (edges_followed pairs)
          (record ex { world = mark undefined ex.world }))

  -- A relationship behind a node whose variable is bound.
  unfoldable pub hop :
      PatternElement → PatternNode → LabelCache → Executor S → LabelCache × Executor S
  unfolding cache_label follow_relationship
  hop e next_node cache ex = elim e.relationship [
    | none ↦ (cache, ex)
    | some rel ↦
        if is_empty e.node.variable then (cache, ex) else (elim (find e.node.variable ex.context) [
          | none ↦ (cache, ex)
          | some ids ↦
              let cache1 = cache_label next_node.label ex.world cache in
              (cache1, follow_relationship e.node.variable rel next_node ids cache1 ex)
        ])
  ]

  -- The loop over the elements that have a next one.
  unfoldable pub match_hops : PatternPath → LabelCache → Executor S → Executor S
  unfolding hop
  match_hops [] cache ex = ex
  match_hops (e ∷ []) cache ex = ex
  match_hops (e ∷ next ∷ es) cache ex =
      let (cache1, ex1) = hop e next.node cache ex in match_hops (next ∷ es) cache1 ex1

module _ {S : Type 0} (kvs : Kvs S) (stod : Bytes → Option ℕ) (tx : ℕ) where
  unfoldable pub match_path : PatternPath → Executor S → Executor S
  unfolding match_hops
  match_path [] ex = ex
  match_path (e ∷ es) ex = match_hops kvs tx (e ∷ es) [] (match_first kvs stod tx e.node ex)

  -- It always returns true.
  unfoldable pub execute_match : List PatternPath → Executor S → Executor S
  unfolding match_path
  execute_match [] ex = ex
  execute_match (p ∷ ps) ex = execute_match ps (match_path p ex)
