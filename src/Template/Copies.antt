-- ===== src/Template/Copies.antt =====
-- `deep_copy_statement` on statements whose WHERE clauses have a legacy value exactly where they
-- compare, as the parser makes them for a property on the left side.
use tsurugi_graph.Base.{◌≡◌, refl, ap, Option, none, some, List, [], ◌∷◌, All}
use mathlib.Core.Path.{ap₂}
use tsurugi_graph.Ast.{
  Expression, variable, literal, property_access, binary, list_literal, map_literal, Elements,
  no_elements, element, Entries, no_entries, entry, PatternRelationship, PatternPath, ReturnItem,
  Assignment, LegacyValue, absent, right_operand, Clause, create, match, return_clause,
  where_clause, delete_clause, set_clause, unwind, Statement,
}
use tsurugi_graph.Template.Copy.{
  clone_expr, clone_elements, clone_props, clone_relationship, clone_path, clone_paths, clone_items,
  clone_assignments, clone_value, clone_clause, deep_copy_statement,
}

mutual
  unfolding clone_expr clone_elements clone_props

  pub clone_expr_lem : (e : Expression) → clone_expr e ≡ e
  clone_expr_lem (literal v s) = refl
  clone_expr_lem (variable n) = refl
  clone_expr_lem (property_access v k) = refl
  clone_expr_lem (binary l op r) = rw (clone_expr_lem l, clone_expr_lem r) refl
  clone_expr_lem (list_literal es) = rw (clone_elements_lem es) refl
  clone_expr_lem (map_literal es) = rw (clone_props_lem es) refl

  clone_elements_lem : (es : Elements) → clone_elements es ≡ es
  clone_elements_lem no_elements = refl
  clone_elements_lem (element e es) = rw (clone_expr_lem e, clone_elements_lem es) refl

  clone_props_lem : (es : Entries) → clone_props es ≡ es
  clone_props_lem no_entries = refl
  clone_props_lem (entry k e es) = rw (clone_expr_lem e, clone_props_lem es) refl

clone_relationship_lem : (r : Option PatternRelationship) → clone_relationship r ≡ r
unfolding clone_relationship
clone_relationship_lem none = refl
clone_relationship_lem (some r) = rw (clone_props_lem r.properties) refl

clone_path_lem : (p : PatternPath) → clone_path p ≡ p
unfolding clone_path
clone_path_lem [] = refl
clone_path_lem (e ∷ es) =
    rw (clone_props_lem e.node.properties, clone_relationship_lem e.relationship, clone_path_lem es)
      refl

clone_paths_lem : (ps : List PatternPath) → clone_paths ps ≡ ps
unfolding clone_paths
clone_paths_lem [] = refl
clone_paths_lem (p ∷ ps) = rw (clone_path_lem p, clone_paths_lem ps) refl

clone_items_lem : (is : List ReturnItem) → clone_items is ≡ is
unfolding clone_items
clone_items_lem [] = refl
clone_items_lem (i ∷ is) = rw (clone_expr_lem i.expr, clone_items_lem is) refl

clone_assignments_lem : (as' : List Assignment) → clone_assignments as' ≡ as'
unfolding clone_assignments
clone_assignments_lem [] = refl
clone_assignments_lem (a ∷ as') = rw (clone_expr_lem a.value, clone_assignments_lem as') refl

-- The right operand of a comparison, and else nothing. For a comparison whose left side is not a
-- property the parser leaves nothing, so that the copy has a legacy value and the original has none.
unfoldable pub compared_value : Expression → LegacyValue
compared_value (binary l op r) = right_operand
compared_value _ = absent

unfoldable pub IsCompared : Clause → Type 0
IsCompared (where_clause w) = w.value ≡ compared_value w.condition
IsCompared _ = Unit

clone_value_lem : (e : Expression) → clone_value e (compared_value e) ≡ compared_value e
unfolding clone_value compared_value
clone_value_lem (literal v s) = refl
clone_value_lem (variable n) = refl
clone_value_lem (property_access v k) = refl
clone_value_lem (binary l op r) = refl
clone_value_lem (list_literal es) = refl
clone_value_lem (map_literal es) = refl

clone_clause_lem : (c : Clause) → IsCompared c → clone_clause c ≡ c
unfolding clone_clause IsCompared
clone_clause_lem (create ps) h = ap create (clone_paths_lem ps)
clone_clause_lem (match ps) h = ap match (clone_paths_lem ps)
clone_clause_lem (where_clause w) h =
    rw (clone_expr_lem w.condition, ap (clone_value w.condition) h, clone_value_lem w.condition, h)
      refl
clone_clause_lem (return_clause items) h = ap return_clause (clone_items_lem items)
clone_clause_lem (set_clause as') h = ap set_clause (clone_assignments_lem as')
clone_clause_lem (delete_clause vs detach) h = refl
clone_clause_lem (unwind e alias) h = ap (λ x. unwind x alias) (clone_expr_lem e)

-- A deep copy is equal to the statement, where the legacy value of each WHERE clause is the right
-- operand of its comparison, and absent where the clause does not compare.
pub deep_copy_statement_lem : (s : Statement) → All IsCompared s → deep_copy_statement s ≡ s
unfolding deep_copy_statement
deep_copy_statement_lem [] h = refl
deep_copy_statement_lem (c ∷ cs) h =
    ap₂ (λ x xs. x ∷ xs) (clone_clause_lem c h.0) (deep_copy_statement_lem cs h.1)
