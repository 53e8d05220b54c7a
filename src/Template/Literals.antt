-- ===== src/Template/Literals.antt =====
-- `visit_literals`, with the visitors of `extract_literals` and `bind_literals`. A visitor that
-- collects is the list of what it collects; one that binds is passed the values that are left.
use tsurugi_graph.Base.{Option, none, some, List, [], ◌∷◌, ◌++◌, Bytes}
use tsurugi_graph.Ast.{
  Expression, variable, literal, property_access, binary, list_literal, map_literal, Entries,
  no_entries, entry, PatternRelationship, PatternPath, Assignment, Clause, create, match,
  return_clause, where_clause, delete_clause, set_clause, unwind, Statement,
}

-- `visit_expr`: it goes into the operands of a comparison, and not into lists and maps.
unfoldable pub literals_of : Expression → List Bytes
literals_of (literal v s) = v ∷ []
literals_of (binary l op r) = literals_of l ++ literals_of r
literals_of (variable n) = []
literals_of (property_access v k) = []
literals_of (list_literal es) = []
literals_of (map_literal es) = []

unfoldable pub entries_literals : Entries → List Bytes
unfolding literals_of
entries_literals no_entries = []
entries_literals (entry k e es) = literals_of e ++ entries_literals es

unfoldable pub relationship_literals : Option PatternRelationship → List Bytes
unfolding entries_literals
relationship_literals none = []
relationship_literals (some r) = entries_literals r.properties

unfoldable pub path_literals : PatternPath → List Bytes
unfolding relationship_literals
path_literals [] = []
path_literals (e ∷ es) =
    entries_literals e.node.properties ++ (relationship_literals e.relationship ++ path_literals es)

unfoldable pub paths_literals : List PatternPath → List Bytes
unfolding path_literals
paths_literals [] = []
paths_literals (p ∷ ps) = path_literals p ++ paths_literals ps

unfoldable pub assignments_literals : List Assignment → List Bytes
unfolding literals_of
assignments_literals [] = []
assignments_literals (a ∷ as') = literals_of a.value ++ assignments_literals as'

unfoldable pub clause_literals : Clause → List Bytes
unfolding paths_literals assignments_literals
clause_literals (create ps) = paths_literals ps
clause_literals (where_clause w) = literals_of w.condition
clause_literals (set_clause as') = assignments_literals as'
clause_literals (unwind e alias) = literals_of e
clause_literals (match ps) = []
clause_literals (return_clause items) = []
clause_literals (delete_clause vs detach) = []

unfoldable pub extract_literals : Statement → List Bytes
unfolding clause_literals
extract_literals [] = []
extract_literals (c ∷ cs) = clause_literals c ++ extract_literals cs

-- The binding visitor on one literal: it takes a value while there are any.
abbrev pub Bound {ℓ} : Type ℓ → Type ℓ
Bound A = A × List Bytes

unfoldable pub bind_value : Bytes → List Bytes → Bound Bytes
bind_value old [] = (old, [])
bind_value old (v ∷ vs) = (v, vs)

unfoldable pub bind_expr : Expression → List Bytes → Bound Expression
unfolding bind_value
bind_expr (literal v s) vs = let (v', rest) = bind_value v vs in (literal v' s, rest)
bind_expr (binary l op r) vs =
    let (l', rest) = bind_expr l vs in
    let (r', rest') = bind_expr r rest in (binary l' op r', rest')
bind_expr (variable n) vs = (variable n, vs)
bind_expr (property_access v k) vs = (property_access v k, vs)
bind_expr (list_literal es) vs = (list_literal es, vs)
bind_expr (map_literal es) vs = (map_literal es, vs)

unfoldable pub bind_entries : Entries → List Bytes → Bound Entries
unfolding bind_expr
bind_entries no_entries vs = (no_entries, vs)
bind_entries (entry k e es) vs =
    let (e', rest) = bind_expr e vs in
    let (es', rest') = bind_entries es rest in (entry k e' es', rest')

unfoldable pub bind_relationship :
    Option PatternRelationship → List Bytes → Bound (Option PatternRelationship)
unfolding bind_entries
bind_relationship none vs = (none, vs)
bind_relationship (some r) vs =
    let (ps, rest) = bind_entries r.properties vs in (some (record r { properties = ps }), rest)

unfoldable pub bind_path : PatternPath → List Bytes → Bound PatternPath
unfolding bind_relationship
bind_path [] vs = ([], vs)
bind_path (e ∷ es) vs =
    let (ps, rest) = bind_entries e.node.properties vs in
    let (rel, rest1) = bind_relationship e.relationship rest in
    let (es', rest2) = bind_path es rest1 in
    (record { node = record e.node { properties = ps }; relationship = rel } ∷ es', rest2)

unfoldable pub bind_paths : List PatternPath → List Bytes → Bound (List PatternPath)
unfolding bind_path
bind_paths [] vs = ([], vs)
bind_paths (p ∷ ps) vs =
    let (p', rest) = bind_path p vs in let (ps', rest') = bind_paths ps rest in (p' ∷ ps', rest')

unfoldable pub bind_assignments : List Assignment → List Bytes → Bound (List Assignment)
unfolding bind_expr
bind_assignments [] vs = ([], vs)
bind_assignments (a ∷ as') vs =
    let (e, rest) = bind_expr a.value vs in
    let (as2, rest') = bind_assignments as' rest in (record a { value = e } ∷ as2, rest')

unfoldable pub bind_clause : Clause → List Bytes → Bound Clause
unfolding bind_paths bind_assignments
bind_clause (create ps) vs = let (ps', rest) = bind_paths ps vs in (create ps', rest)
bind_clause (where_clause w) vs =
    let (e, rest) = bind_expr w.condition vs in (where_clause (record w { condition = e }), rest)
bind_clause (set_clause as') vs =
    let (as2, rest) = bind_assignments as' vs in (set_clause as2, rest)
bind_clause (unwind e alias) vs = let (e', rest) = bind_expr e vs in (unwind e' alias, rest)
bind_clause (match ps) vs = (match ps, vs)
bind_clause (return_clause items) vs = (return_clause items, vs)
bind_clause (delete_clause ns detach) vs = (delete_clause ns detach, vs)

unfoldable pub bind_clauses : Statement → List Bytes → Bound Statement
unfolding bind_clause
bind_clauses [] vs = ([], vs)
bind_clauses (c ∷ cs) vs =
    let (c', rest) = bind_clause c vs in
    let (cs', rest') = bind_clauses cs rest in (c' ∷ cs', rest')

unfoldable pub bind_literals : Statement → List Bytes → Statement
unfolding bind_clauses
bind_literals stmt vs = (bind_clauses stmt vs).0
