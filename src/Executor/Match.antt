-- ===== src/Executor/Match.antt =====
-- `execute_match`, the nodes: the first node of each path, by the property index or by the streaming
-- scan of its label.
use tsurugi_graph.Base.{
  ℕ, zero, suc, Bool, true, false, ◌||◌, not, Option, none, some, List, [], ◌∷◌, Bytes, bytes,
  if◌then◌else◌, eq_bytes, assign, length, sort, set_intersection,
}
use tsurugi_graph.Ast.{
  Expression, literal, variable, property_access, binary, list_literal, map_literal, Entries,
  no_entries, entry, PatternNode, PatternPath, WhereClause, legacy_value,
}
use tsurugi_graph.Json.Value.{get_json_value}
use tsurugi_graph.Kvs.{Kvs}
use tsurugi_graph.Storage.State.{World}
use tsurugi_graph.Storage.Scan.{LabelIterator, next, find_nodes_by_label_iter, get_properties}
use tsurugi_graph.Storage.Index.Read.{find_nodes_by_property}
use tsurugi_graph.Executor.State.{Executor, or_empty}

abbrev pub is_empty : Bytes → Bool
is_empty s = eq_bytes s []

-- `std::dynamic_pointer_cast<literal>(expr)`, its text.
unfoldable pub literal_text : Expression → Option Bytes
literal_text (literal v s) = some v
literal_text (variable n) = none
literal_text (property_access v k) = none
literal_text (binary l o r) = none
literal_text (list_literal es) = none
literal_text (map_literal es) = none

-- The inline properties that are literals all have the node's values.
unfoldable pub matches_inline : Bytes → Entries → Bool
unfolding literal_text
matches_inline props no_entries = true
matches_inline props (entry key e es) =
    let rest = matches_inline props es in
    elim (literal_text e) [
      | none ↦ rest
      | some v ↦ if eq_bytes (get_json_value props key) v then rest else false
    ]

abbrev pub has_entries : Entries → Bool
has_entries no_entries = false
has_entries (entry k e es) = true

-- `context_[variable] = ids; context_labels_[variable] = label;`
unfoldable pub bind_labelled : {S : Type 0} → Bytes → Bytes → List ℕ → Executor S → Executor S
bind_labelled name label ids ex = record ex {
  context = assign name ids ex.context;
  context_labels = assign name label ex.context_labels;
}

-- The intersection so far: `none` stands for `first_prop`.
unfoldable pub intersect : Option (List ℕ) → List ℕ → List ℕ
intersect none ids = sort ids
intersect (some so_far) ids = set_intersection so_far (sort ids)

module _ {S : Type 0} (kvs : Kvs S) (stod : Bytes → Option ℕ) (tx : ℕ) where
  -- The loop over the inline properties; `none` is `all_indexed = false`.
  unfoldable pub indexed_ids :
      Bytes → Entries → Option (List ℕ) → World S → Option (Option (List ℕ))
  unfolding literal_text intersect
  indexed_ids label no_entries so_far w = some so_far
  indexed_ids label (entry key e es) so_far w = elim (literal_text e) [
    | none ↦ none
    | some v ↦ elim (find_nodes_by_property kvs stod tx label key v w) [
      | none ↦ none
      | some ids ↦ indexed_ids label es (some (intersect so_far ids)) w
    ]
  ]

  -- `while (iter.next())`, with the filter on inline properties if there are any.
  unfoldable pub scan_matching : ℕ → Entries → World S → LabelIterator → List ℕ
  unfolding matches_inline
  scan_matching zero props w it = []
  scan_matching (suc fuel) props w it =
      let (more, it1) = next it in
      let rest = scan_matching fuel props w it1 in
      let taken =
        if has_entries props
        then (elim (get_properties kvs it1 w) [
          | none ↦ false
          | some text ↦ matches_inline text props
        ])
        else true in
      if more then (if taken then it1.current_id ∷ rest else rest) else []

  -- A call of `next` takes an entry, or is the last.
  unfoldable pub scanned_ids : Bytes → Entries → World S → List ℕ
  unfolding scan_matching
  scanned_ids label props w =
      let it = find_nodes_by_label_iter kvs label w in
      scan_matching (suc (length (or_empty it.ahead))) props w it

  -- The scan binds the variable only where it found a node.
  unfoldable pub match_by_scan : PatternNode → Executor S → Executor S
  unfolding scanned_ids bind_labelled
  match_by_scan node ex = elim (scanned_ids node.label node.properties ex.world) [
    | [] ↦ ex
    | id ∷ ids ↦
        if is_empty node.variable then ex else bind_labelled node.variable node.label (id ∷ ids) ex
  ]

  unfoldable pub match_first : PatternNode → Executor S → Executor S
  unfolding indexed_ids match_by_scan bind_labelled
  match_first node ex =
      let by_index : Executor S = elim (indexed_ids node.label node.properties none ex.world) [
        | some (some ids) ↦
            if is_empty node.variable then ex else bind_labelled node.variable node.label ids ex
        | some none ↦ match_by_scan node ex
        | none ↦ match_by_scan node ex
      ] in
      if is_empty node.label then ex else by_index

  -- `try_indexed_match_where`: `none` where the two clauses are to be executed one by one.
  unfoldable pub match_where_node : PatternNode → WhereClause → Executor S → Option (Executor S)
  unfolding literal_text bind_labelled
  match_where_node node w ex = elim (legacy_value w) [
    | none ↦ none
    | some e ↦ elim (literal_text e) [
      | none ↦ none
      | some value ↦
          elim (find_nodes_by_property kvs stod tx node.label w.property value ex.world) [
            | none ↦ none
            | some ids ↦ some (bind_labelled node.variable node.label ids ex)
          ]
    ]
  ]

  unfoldable pub try_indexed_match_where :
      List PatternPath → WhereClause → Executor S → Option (Executor S)
  unfolding match_where_node
  try_indexed_match_where ((e ∷ []) ∷ []) w ex =
      let found = match_where_node e.node w ex in
      if is_empty e.node.label || is_empty e.node.variable
      then none
      else if not (eq_bytes w.variable e.node.variable) || not (eq_bytes w.op (bytes "="))
      then none
      else if is_empty w.property
      then none
      else found
  try_indexed_match_where _ w ex = none
