-- ===== src/Template/Binding.antt =====
-- `extract_literals` and `bind_literals`: binding the literals of a statement to itself changes
-- nothing, which is what makes a cached template reusable.
use tsurugi_graph.Base.{◌≡◌, refl, ap, Option, none, some, List, [], ◌∷◌, ◌++◌, append_assoc, Bytes}
use tsurugi_graph.Ast.{
  Expression, variable, literal, property_access, binary, list_literal, map_literal, Entries,
  no_entries, entry, PatternRelationship, PatternPath, Assignment, Clause, create, match,
  return_clause, where_clause, delete_clause, set_clause, unwind, Statement,
}
use tsurugi_graph.Template.Literals.{
  literals_of, entries_literals, relationship_literals, path_literals, paths_literals,
  assignments_literals, clause_literals, extract_literals, bind_expr, bind_entries,
  bind_relationship, bind_path, bind_paths, bind_assignments, bind_clause, bind_clauses,
  bind_literals,
}

-- An expression takes its own literals back, and leaves what follows them.
bind_expr-literals_of :
    (e : Expression) (rest : List Bytes) → bind_expr e (literals_of e ++ rest) ≡ (e, rest)
unfolding bind_expr literals_of
bind_expr-literals_of (literal v s) rest = refl
bind_expr-literals_of (binary l op r) rest =
    rw
      (
        append_assoc (literals_of l) (literals_of r) rest,
        bind_expr-literals_of l (literals_of r ++ rest),
        bind_expr-literals_of r rest,
      )
      refl
bind_expr-literals_of (variable n) rest = refl
bind_expr-literals_of (property_access v k) rest = refl
bind_expr-literals_of (list_literal es) rest = refl
bind_expr-literals_of (map_literal es) rest = refl

bind_entries-literals :
    (es : Entries) (rest : List Bytes) → bind_entries es (entries_literals es ++ rest) ≡ (es, rest)
unfolding bind_entries entries_literals
bind_entries-literals no_entries rest = refl
bind_entries-literals (entry k e es) rest =
    rw
      (
        append_assoc (literals_of e) (entries_literals es) rest,
        bind_expr-literals_of e (entries_literals es ++ rest),
        bind_entries-literals es rest,
      )
      refl

bind_relationship-literals :
    (r : Option PatternRelationship) (rest : List Bytes)
    → bind_relationship r (relationship_literals r ++ rest) ≡ (r, rest)
unfolding bind_relationship relationship_literals
bind_relationship-literals none rest = refl
bind_relationship-literals (some r) rest = rw (bind_entries-literals r.properties rest) refl

bind_path-literals :
    (p : PatternPath) (rest : List Bytes) → bind_path p (path_literals p ++ rest) ≡ (p, rest)
unfolding bind_path path_literals
bind_path-literals [] rest = refl
bind_path-literals (e ∷ es) rest =
    let of_node = entries_literals e.node.properties in
    let of_relationship = relationship_literals e.relationship in
    rw
      (
        append_assoc of_node (of_relationship ++ path_literals es) rest,
        append_assoc of_relationship (path_literals es) rest,
        bind_entries-literals e.node.properties (of_relationship ++ (path_literals es ++ rest)),
        bind_relationship-literals e.relationship (path_literals es ++ rest),
        bind_path-literals es rest,
      )
      refl

bind_paths-literals :
    (ps : List PatternPath) (rest : List Bytes)
    → bind_paths ps (paths_literals ps ++ rest) ≡ (ps, rest)
unfolding bind_paths paths_literals
bind_paths-literals [] rest = refl
bind_paths-literals (p ∷ ps) rest =
    rw
      (
        append_assoc (path_literals p) (paths_literals ps) rest,
        bind_path-literals p (paths_literals ps ++ rest),
        bind_paths-literals ps rest,
      )
      refl

bind_assignments-literals :
    (as' : List Assignment) (rest : List Bytes)
    → bind_assignments as' (assignments_literals as' ++ rest) ≡ (as', rest)
unfolding bind_assignments assignments_literals
bind_assignments-literals [] rest = refl
bind_assignments-literals (a ∷ as') rest =
    rw
      (
        append_assoc (literals_of a.value) (assignments_literals as') rest,
        bind_expr-literals_of a.value (assignments_literals as' ++ rest),
        bind_assignments-literals as' rest,
      )
      refl

bind_clause-literals :
    (c : Clause) (rest : List Bytes) → bind_clause c (clause_literals c ++ rest) ≡ (c, rest)
unfolding bind_clause clause_literals
bind_clause-literals (create ps) rest = rw (bind_paths-literals ps rest) refl
bind_clause-literals (where_clause w) rest = rw (bind_expr-literals_of w.condition rest) refl
bind_clause-literals (set_clause as') rest = rw (bind_assignments-literals as' rest) refl
bind_clause-literals (unwind e alias) rest = rw (bind_expr-literals_of e rest) refl
bind_clause-literals (match ps) rest = refl
bind_clause-literals (return_clause items) rest = refl
bind_clause-literals (delete_clause ns detach) rest = refl

bind_clauses-extract_literals :
    (s : Statement) (rest : List Bytes) → bind_clauses s (extract_literals s ++ rest) ≡ (s, rest)
unfolding bind_clauses extract_literals
bind_clauses-extract_literals [] rest = refl
bind_clauses-extract_literals (c ∷ cs) rest =
    rw
      (
        append_assoc (clause_literals c) (extract_literals cs) rest,
        bind_clause-literals c (extract_literals cs ++ rest),
        bind_clauses-extract_literals cs rest,
      )
      refl

-- Binding to a statement the literals that were extracted from it gives the statement back, also
-- where more values follow them.
pub bind_literals-extract_literals :
    (s : Statement) (rest : List Bytes) → bind_literals s (extract_literals s ++ rest) ≡ s
unfolding bind_literals
bind_literals-extract_literals s rest =
    ap (λ (b : Statement × List Bytes). b.0) (bind_clauses-extract_literals s rest)
