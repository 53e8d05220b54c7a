-- ===== src/Executor/Where/Fused.antt =====
-- The fused MATCH and WHERE against the two clauses one by one.
use tsurugi_graph.Base.{
  ℕ, ◌≡◌, refl, sym, ap, ◌∙◌, ◌&&◌, Bool, true, false, Option, none, some, List, [], ◌∷◌, Bytes,
  bytes, eq_bytes, eq_bytes_refl, find, find-assign_self, assign, contains,
}
use tsurugi_graph.Ast.{literal, no_entries, PatternNode, PatternPath, WhereClause, legacy_value}
use tsurugi_graph.Kvs.{Kvs}
use tsurugi_graph.Storage.Index.Read.{eq, op_of, find_nodes_by_property}
use tsurugi_graph.Executor.State.{Executor, ids_of, label_of, or_empty}
use tsurugi_graph.Executor.Match.{
  is_empty, literal_text, bind_labelled, indexed_ids, scanned_ids, match_by_scan, match_first,
  match_where_node, try_indexed_match_where,
}
use tsurugi_graph.Executor.Hops.{match_hops, match_path, execute_match}
use tsurugi_graph.Executor.Where.{
  comparison_value, comparison_of, index_lookup, filtered_ids, execute_where,
}
use tsurugi_graph.Executor.Where.ByIndex.{contains-filtered_ids}

-- `MATCH (v:Label) WHERE v.property = literal`
pub record IsFusible (node : PatternNode) (w : WhereClause) (text : Bytes) (is_string : Bool)
    : Type 0 where
  pub labelled : is_empty node.label ≡ false
  pub named : is_empty node.variable ≡ false
  pub no_properties : node.properties ≡ no_entries
  pub same : w.variable ≡ node.variable
  pub equality : w.op ≡ bytes "="
  pub property : is_empty w.property ≡ false
  pub value : legacy_value w ≡ some (literal text is_string)

abbrev pub single : PatternNode → List PatternPath
single node = (record { node = node; relationship = none } ∷ []) ∷ []

ids_of-bind_labelled :
    {S : Type 0} (name label : Bytes) (ids : List ℕ) (ex : Executor S)
    → ids_of name (bind_labelled name label ids ex) ≡ ids
unfolding bind_labelled
ids_of-bind_labelled name label ids ex = rw (find-assign_self name ids ex.context) refl

label_of-bind_labelled :
    {S : Type 0} (name label : Bytes) (ids : List ℕ) (ex : Executor S)
    → label_of name (bind_labelled name label ids ex) ≡ label
unfolding bind_labelled
label_of-bind_labelled name label ids ex = rw (find-assign_self name label ex.context_labels) refl

comparison_value-literal :
    (stod : Bytes → Option ℕ) (text : Bytes) (is_string : Bool)
    → (comparison_value stod (some (literal text is_string))).0 ≡ text
unfolding comparison_value
comparison_value-literal stod text true = refl
comparison_value-literal stod text false = refl

module _ {S : Type 0} (kvs : Kvs S) (stod : Bytes → Option ℕ) (concurrency tx : ℕ)
    (node : PatternNode) (w : WhereClause) (text : Bytes) (is_string : Bool)
    (fusible : IsFusible node w text is_string) where
  variable_test : eq_bytes w.variable node.variable ≡ true
  variable_test = ap (λ v. eq_bytes v node.variable) fusible.same ∙ eq_bytes_refl node.variable

  operator_test : eq_bytes w.op (bytes "=") ≡ true
  operator_test = ap (λ v. eq_bytes v (bytes "=")) fusible.equality ∙ eq_bytes_refl (bytes "=")

  fused :
      (results : List ℕ) (ex : Executor S)
      → find_nodes_by_property kvs stod tx node.label w.property text ex.world ≡ some results
      → try_indexed_match_where kvs stod tx (single node) w ex
        ≡ some (bind_labelled node.variable node.label results ex)
  unfolding try_indexed_match_where match_where_node literal_text
  fused results ex found = rw fusible.labelled (
      rw fusible.named (
        rw variable_test (
          rw operator_test (
            rw fusible.property
              (rw (fusible.value, match_where_node) (rw (found, match_where_node) refl))))))

  by_scan :
      (ex : Executor S)
      → execute_match kvs stod tx (single node) ex ≡ match_by_scan kvs stod tx node ex
  unfolding execute_match match_path match_hops match_first indexed_ids
  by_scan ex = rw fusible.labelled (
      rw
        (
          ap (λ es. indexed_ids kvs stod tx node.label es none ex.world) fusible.no_properties,
          match_first,
        )
        refl)

  scanned : Executor S → List ℕ
  scanned ex = scanned_ids kvs stod tx node.label node.properties ex.world

  module _ (ids results : List ℕ) (ex : Executor S)
      (found : find_nodes_by_property kvs stod tx node.label w.property text ex.world
        ≡ some results) where
    bound : Executor S
    bound = bind_labelled node.variable node.label ids ex

    bound_ids : find w.variable bound.context ≡ some ids
    unfolding bound bind_labelled
    bound_ids =
        ap (λ v. find v (assign node.variable ids ex.context)) fusible.same
        ∙ find-assign_self node.variable ids ex.context

    bound_label : label_of w.variable bound ≡ node.label
    unfolding bound
    bound_label =
        ap (λ v. label_of v (bind_labelled node.variable node.label ids ex)) fusible.same
        ∙ label_of-bind_labelled node.variable node.label ids ex

    compared_text : (comparison_of stod w).text ≡ text
    unfolding comparison_of
    compared_text =
        ap (λ o. (comparison_value stod o).0) fusible.value
        ∙ comparison_value-literal stod text is_string

    bound_world : bound.world ≡ ex.world
    unfolding bound bind_labelled
    bound_world = refl

    lookup : index_lookup kvs stod concurrency tx w (comparison_of stod w).text bound ≡ some results
    unfolding index_lookup
    lookup =
        let operator : op_of w.op ≡ eq =
          ap op_of fusible.equality ∙ unfold op_of eq_bytes in refl in
        rw bound_label (
          rw fusible.labelled (
            rw (operator, index_lookup) (rw bound_label (rw compared_text (rw bound_world found)))))

    unnamed : is_empty w.variable ≡ false
    unnamed = ap is_empty fusible.same ∙ fusible.named

    -- The index gives those of the bound ids that it has.
    where_bound :
        (id : ℕ)
        → contains id (ids_of node.variable (execute_where kvs stod concurrency tx w bound))
          ≡ (contains id ids && contains id results)
    unfolding execute_where
    where_bound id =
        let kept = filtered_ids kvs stod concurrency tx w ids bound in
        rw (bound_ids, execute_where)
          (rw unnamed (
            rw fusible.property (
              ap (λ v. contains id (or_empty (find node.variable (assign v kept bound.context))))
                fusible.same
              ∙ rw (find-assign_self node.variable kept bound.context)
                  (contains-filtered_ids kvs stod concurrency tx w ids results bound id lookup))))

  scan_empty : (ex : Executor S) → scanned ex ≡ [] → match_by_scan kvs stod tx node ex ≡ ex
  unfolding scanned match_by_scan
  scan_empty ex e = rw (e, match_by_scan) refl

  scan_found :
      (ex : Executor S) (id : ℕ) (ids : List ℕ)
      → scanned ex ≡ id ∷ ids
      → match_by_scan kvs stod tx node ex ≡ bind_labelled node.variable node.label (id ∷ ids) ex
  unfolding scanned match_by_scan
  scan_found ex id ids e = rw (e, match_by_scan) (rw fusible.named refl)

  unbound :
      (ex : Executor S)
      → find node.variable ex.context ≡ none
      → ids_of node.variable (execute_where kvs stod concurrency tx w ex) ≡ []
  unfolding execute_where
  unbound ex fresh =
      rw (ap (λ v. find v ex.context) fusible.same ∙ fresh, execute_where) (rw fresh refl)

  separate :
      (scan results : List ℕ) (ex : Executor S) (id : ℕ)
      → scanned ex ≡ scan
      → find node.variable ex.context ≡ none
      → find_nodes_by_property kvs stod tx node.label w.property text ex.world ≡ some results
      → contains id (
          ids_of node.variable
            (execute_where kvs stod concurrency tx w (execute_match kvs stod tx (single node) ex)))
        ≡ (contains id scan && contains id results)
  unfolding contains bound
  separate [] results ex id e fresh found =
      rw (by_scan ex ∙ scan_empty ex e) (ap (contains id) (unbound ex fresh))
  separate (s ∷ ids) results ex id e fresh found =
      rw (by_scan ex ∙ scan_found ex s ids e) (where_bound (s ∷ ids) results ex found id)

  -- For MATCH of one labelled node without properties and WHERE of an equality of its property with
  -- a literal, where the index gives ids and the variable is new: the fused execution binds the
  -- variable, and an id that the scan of the label meets if the index gives it stands for the
  -- variable if and only if it does after the two clauses, executed one by one.
  pub try_indexed_match_where-execute_where :
      (results : List ℕ) (ex : Executor S) (id : ℕ)
      → find node.variable ex.context ≡ none
      → find_nodes_by_property kvs stod tx node.label w.property text ex.world ≡ some results
      → (contains id results ≡ true
          → contains id (scanned_ids kvs stod tx node.label node.properties ex.world) ≡ true)
      → (ex1 : Executor S) × (try_indexed_match_where kvs stod tx (single node) w ex ≡ some ex1)
        × (contains id (ids_of node.variable ex1)
            ≡ contains id (
                ids_of node.variable (
                  execute_where kvs stod concurrency tx w
                    (execute_match kvs stod tx (single node) ex))))
  unfolding scanned
  try_indexed_match_where-execute_where results ex id fresh found listed = (
    bind_labelled node.variable node.label results ex,
    fused results ex found,
    ap (contains id) (ids_of-bind_labelled node.variable node.label results ex)
        ∙ both (contains id results) (contains id (scanned ex)) listed
        ∙ sym (separate (scanned ex) results ex id refl fresh found),
  )
    where
      both : (b c : Bool) → (b ≡ true → c ≡ true) → b ≡ (c && b)
      both true true h = refl
      both true false h = sym (h refl)
      both false true h = refl
      both false false h = refl
