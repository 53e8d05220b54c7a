-- ===== src/Template/Rebinding.antt =====
-- `bind_literals` with new values: what a statement's literals are afterwards.
use tsurugi_graph.Base.{
  ◌≡◌, refl, ap, ◌∙◌, sym, ◌≤◌, ◌+◌, Option, none, some, List, [], ◌∷◌, ◌++◌, append_assoc,
  append-nil, arith, length, length-append, Bytes,
}
use tsurugi_graph.Ast.{
  Expression, variable, literal, property_access, binary, list_literal, map_literal, Entries,
  no_entries, entry, PatternRelationship, PatternPath, Assignment, Clause, create, match,
  return_clause, where_clause, delete_clause, set_clause, unwind, Statement,
}
use tsurugi_graph.Template.Literals.{
  literals_of, entries_literals, relationship_literals, path_literals, paths_literals,
  assignments_literals, clause_literals, extract_literals, bind_value, bind_expr, bind_entries,
  bind_relationship, bind_path, bind_paths, bind_assignments, bind_clause, bind_clauses,
  bind_literals,
}

-- As many literals as before, and they and the values that are left are the values given.
record Keeps (old new values left : List Bytes) : Type 0 where
  same : length new ≡ length old
  split : new ++ left ≡ values

nothing_Keeps : (vs : List Bytes) → Keeps [] [] vs vs
nothing_Keeps vs = record { same = refl; split = refl }

Keeps-append :
    {b' values middle left : List Bytes} (a b a' : List Bytes)
    → length (a ++ b) ≤ length values
    → (length a ≤ length values → Keeps a a' values middle)
    → (length b ≤ length middle → Keeps b b' middle left)
    → Keeps (a ++ b) (a' ++ b') values left
Keeps-append {b' = b'} {values = values} {middle = middle} {left = left} a b a' h f g =
    let total = length-append a b in
    let first = f (omega arith) in
    let sizes : length a' + length middle ≡ length values =
      sym (length-append a' middle) ∙ ap (λ (l : List Bytes). length l) first.split in
    let second = g (omega (arith, first.same)) in
    record {
      same = omega (arith, length-append a' b', first.same, second.same);
      split = append_assoc a' b' left ∙ ap (a' ++◌) second.split ∙ first.split;
    }

bind_expr-Keeps :
    (e : Expression) (vs : List Bytes)
    → length (literals_of e) ≤ length vs
    → Keeps (literals_of e) (literals_of (bind_expr e vs).0) vs (bind_expr e vs).1
unfolding bind_expr literals_of bind_value
bind_expr-Keeps (literal v s) [] h = absurd (omega arith)
bind_expr-Keeps (literal v s) (w ∷ vs) h = record { same = refl; split = refl }
bind_expr-Keeps (binary l op r) vs h =
    Keeps-append (literals_of l) (literals_of r) (literals_of (bind_expr l vs).0) h
      (bind_expr-Keeps l vs) (bind_expr-Keeps r (bind_expr l vs).1)
bind_expr-Keeps (variable n) vs h = nothing_Keeps vs
bind_expr-Keeps (property_access v k) vs h = nothing_Keeps vs
bind_expr-Keeps (list_literal es) vs h = nothing_Keeps vs
bind_expr-Keeps (map_literal es) vs h = nothing_Keeps vs

bind_entries-Keeps :
    (es : Entries) (vs : List Bytes)
    → length (entries_literals es) ≤ length vs
    → Keeps
        (entries_literals es)
        (entries_literals (bind_entries es vs).0)
        vs
        (bind_entries es vs).1
unfolding bind_entries entries_literals
bind_entries-Keeps no_entries vs h = nothing_Keeps vs
bind_entries-Keeps (entry k e es) vs h =
    Keeps-append (literals_of e) (entries_literals es) (literals_of (bind_expr e vs).0) h
      (bind_expr-Keeps e vs) (bind_entries-Keeps es (bind_expr e vs).1)

bind_relationship-Keeps :
    (r : Option PatternRelationship) (vs : List Bytes)
    → length (relationship_literals r) ≤ length vs
    → Keeps
        (relationship_literals r)
        (relationship_literals (bind_relationship r vs).0)
        vs
        (bind_relationship r vs).1
unfolding bind_relationship relationship_literals
bind_relationship-Keeps none vs h = nothing_Keeps vs
bind_relationship-Keeps (some r) vs h = bind_entries-Keeps r.properties vs h

bind_path-Keeps :
    (p : PatternPath) (vs : List Bytes)
    → length (path_literals p) ≤ length vs
    → Keeps (path_literals p) (path_literals (bind_path p vs).0) vs (bind_path p vs).1
unfolding bind_path path_literals
bind_path-Keeps [] vs h = nothing_Keeps vs
bind_path-Keeps (e ∷ es) vs h =
    let node = bind_entries e.node.properties vs in
    let relationship = bind_relationship e.relationship node.1 in
    Keeps-append (entries_literals e.node.properties)
      (relationship_literals e.relationship ++ path_literals es) (entries_literals node.0) h
      (bind_entries-Keeps e.node.properties vs)
      (λ h'.
        Keeps-append (relationship_literals e.relationship) (path_literals es)
          (relationship_literals relationship.0) h' (bind_relationship-Keeps e.relationship node.1)
          (bind_path-Keeps es relationship.1))

bind_paths-Keeps :
    (ps : List PatternPath) (vs : List Bytes)
    → length (paths_literals ps) ≤ length vs
    → Keeps (paths_literals ps) (paths_literals (bind_paths ps vs).0) vs (bind_paths ps vs).1
unfolding bind_paths paths_literals
bind_paths-Keeps [] vs h = nothing_Keeps vs
bind_paths-Keeps (p ∷ ps) vs h =
    Keeps-append (path_literals p) (paths_literals ps) (path_literals (bind_path p vs).0) h
      (bind_path-Keeps p vs) (bind_paths-Keeps ps (bind_path p vs).1)

bind_assignments-Keeps :
    (as' : List Assignment) (vs : List Bytes)
    → length (assignments_literals as') ≤ length vs
    → Keeps
        (assignments_literals as')
        (assignments_literals (bind_assignments as' vs).0)
        vs
        (bind_assignments as' vs).1
unfolding bind_assignments assignments_literals
bind_assignments-Keeps [] vs h = nothing_Keeps vs
bind_assignments-Keeps (a ∷ as') vs h =
    Keeps-append (literals_of a.value) (assignments_literals as')
      (literals_of (bind_expr a.value vs).0) h (bind_expr-Keeps a.value vs)
      (bind_assignments-Keeps as' (bind_expr a.value vs).1)

bind_clause-Keeps :
    (c : Clause) (vs : List Bytes)
    → length (clause_literals c) ≤ length vs
    → Keeps (clause_literals c) (clause_literals (bind_clause c vs).0) vs (bind_clause c vs).1
unfolding bind_clause clause_literals
bind_clause-Keeps (create ps) vs h = bind_paths-Keeps ps vs h
bind_clause-Keeps (where_clause w) vs h = bind_expr-Keeps w.condition vs h
bind_clause-Keeps (set_clause as') vs h = bind_assignments-Keeps as' vs h
bind_clause-Keeps (unwind e alias) vs h = bind_expr-Keeps e vs h
bind_clause-Keeps (match ps) vs h = nothing_Keeps vs
bind_clause-Keeps (return_clause items) vs h = nothing_Keeps vs
bind_clause-Keeps (delete_clause ns detach) vs h = nothing_Keeps vs

bind_clauses-Keeps :
    (s : Statement) (vs : List Bytes)
    → length (extract_literals s) ≤ length vs
    → Keeps (extract_literals s) (extract_literals (bind_clauses s vs).0) vs (bind_clauses s vs).1
unfolding bind_clauses extract_literals
bind_clauses-Keeps [] vs h = nothing_Keeps vs
bind_clauses-Keeps (c ∷ cs) vs h =
    Keeps-append (clause_literals c) (extract_literals cs) (clause_literals (bind_clause c vs).0) h
      (bind_clause-Keeps c vs) (bind_clauses-Keeps cs (bind_clause c vs).1)

no_more : (l left vs : List Bytes) → l ++ left ≡ vs → length vs ≡ length l → l ≡ vs
no_more l [] vs e h = sym (append-nil l) ∙ e
no_more l (x ∷ left) vs e h =
    absurd (omega (arith, ap (λ (k : List Bytes). length k) e, length-append l (x ∷ left)))

-- After binding as many values as a statement has literals, its literals are these values, in
-- their order.
pub extract_literals-bind_literals :
    (s : Statement) (values : List Bytes)
    → length values ≡ length (extract_literals s)
    → extract_literals (bind_literals s values) ≡ values
unfolding bind_literals
extract_literals-bind_literals s values h =
    let kept = bind_clauses-Keeps s values (omega arith) in
    no_more (extract_literals (bind_clauses s values).0) (bind_clauses s values).1 values kept.split
      (h ∙ sym kept.same)
