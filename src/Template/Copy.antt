-- ===== src/Template/Copy.antt =====
-- `clone_expr`, `clone_props`, `clone_path` and `deep_copy_statement`.
use tsurugi_graph.Base.{Option, none, some, List, [], ◌∷◌}
use tsurugi_graph.Ast.{
  Expression, variable, literal, property_access, binary, list_literal, map_literal, Elements,
  no_elements, element, Entries, no_entries, entry, PatternRelationship, PatternPath, ReturnItem,
  Assignment, LegacyValue, absent, right_operand, own, Clause, create, match, return_clause,
  where_clause, delete_clause, set_clause, unwind, Statement,
}

-- The copy of a map is built by inserting the entries in their order, each at the end.
unfoldable mutual
  pub clone_expr : Expression → Expression
  clone_expr (literal v s) = literal v s
  clone_expr (variable n) = variable n
  clone_expr (property_access v k) = property_access v k
  clone_expr (binary l op r) = binary (clone_expr l) op (clone_expr r)
  clone_expr (list_literal es) = list_literal (clone_elements es)
  clone_expr (map_literal es) = map_literal (clone_props es)

  pub clone_elements : Elements → Elements
  clone_elements no_elements = no_elements
  clone_elements (element e es) = element (clone_expr e) (clone_elements es)

  pub clone_props : Entries → Entries
  clone_props no_entries = no_entries
  clone_props (entry k e es) = entry k (clone_expr e) (clone_props es)

unfoldable pub clone_relationship : Option PatternRelationship → Option PatternRelationship
clone_relationship none = none
clone_relationship (some r) = some (record r { properties = clone_props r.properties })

unfoldable pub clone_path : PatternPath → PatternPath
unfolding clone_relationship
clone_path [] = []
clone_path (e ∷ es) =
    record {
      node = record e.node { properties = clone_props e.node.properties };
      relationship = clone_relationship e.relationship;
    }
    ∷ clone_path es

unfoldable pub clone_paths : List PatternPath → List PatternPath
unfolding clone_path
clone_paths [] = []
clone_paths (p ∷ ps) = clone_path p ∷ clone_paths ps

unfoldable pub clone_items : List ReturnItem → List ReturnItem
clone_items [] = []
clone_items (i ∷ is) = record i { expr = clone_expr i.expr } ∷ clone_items is

unfoldable pub clone_assignments : List Assignment → List Assignment
clone_assignments [] = []
clone_assignments (a ∷ as') = record a { value = clone_expr a.value } ∷ clone_assignments as'

-- The copied `value`: the right operand of the copied condition if that is a comparison, else a
-- copy of what the old one points to.
unfoldable pub clone_value : Expression → LegacyValue → LegacyValue
clone_value (binary l op r) value = right_operand
clone_value _ absent = absent
clone_value _ right_operand = absent
clone_value _ (own e) = own (clone_expr e)

unfoldable pub clone_clause : Clause → Clause
unfolding clone_paths clone_items clone_assignments clone_value
clone_clause (create ps) = create (clone_paths ps)
clone_clause (match ps) = match (clone_paths ps)
clone_clause (where_clause w) =
    where_clause
      (record w { condition = clone_expr w.condition; value = clone_value w.condition w.value })
clone_clause (return_clause items) = return_clause (clone_items items)
clone_clause (set_clause as') = set_clause (clone_assignments as')
clone_clause (delete_clause vs detach) = delete_clause vs detach
clone_clause (unwind e alias) = unwind (clone_expr e) alias

unfoldable pub deep_copy_statement : Statement → Statement
unfolding clone_clause
deep_copy_statement [] = []
deep_copy_statement (c ∷ cs) = clone_clause c ∷ deep_copy_statement cs
