-- ===== src/Template/CacheKey.antt =====
-- `ast_cache_key`.
use tsurugi_graph.Base.{Option, none, some, List, [], ◌∷◌, ◌++◌, Bytes, bytes}
use tsurugi_graph.Ast.{
  Entries, no_entries, entry, PatternRelationship, PatternPath, Assignment, Clause, create, match,
  return_clause, where_clause, delete_clause, set_clause, unwind, Statement,
}

unfoldable pub keys_text : Entries → Bytes
keys_text no_entries = []
keys_text (entry k e es) = k ++ (bytes "," ++ keys_text es)

-- The braces are left out where there are no properties.
unfoldable pub properties_text : Entries → Bytes
unfolding keys_text
properties_text no_entries = []
properties_text (entry k e es) = bytes "{" ++ (keys_text (entry k e es) ++ bytes "}")

unfoldable pub label_text : Bytes → Bytes
label_text [] = []
label_text (c ∷ s) = bytes ":" ++ c ∷ s

unfoldable pub relationship_text : Option PatternRelationship → Bytes
relationship_text none = []
relationship_text (some r) = r.direction ++ (bytes ":" ++ r.type)

unfoldable pub path_text : PatternPath → Bytes
unfolding properties_text label_text relationship_text
path_text [] = []
path_text (e ∷ es) =
    bytes "("
    ++ (label_text e.node.label
        ++ (properties_text e.node.properties
            ++ (bytes ")" ++ (relationship_text e.relationship ++ path_text es))))

unfoldable pub paths_text : List PatternPath → Bytes
unfolding path_text
paths_text [] = []
paths_text (p ∷ ps) = path_text p ++ paths_text ps

unfoldable pub assignments_text : List Assignment → Bytes
assignments_text [] = []
assignments_text (a ∷ as') =
    a.variable ++ (bytes "." ++ (a.property ++ (bytes "=$," ++ assignments_text as')))

unfoldable pub clause_text : Clause → Bytes
unfolding paths_text assignments_text
clause_text (create ps) = bytes "CREATE|"
clause_text (match ps) = bytes "MATCH" ++ (paths_text ps ++ bytes "|")
clause_text (where_clause w) =
    bytes "WHERE "
    ++ (w.variable ++ (bytes "." ++ (w.property ++ (bytes " " ++ (w.op ++ bytes " $|")))))
clause_text (return_clause items) = bytes "RETURN|"
clause_text (set_clause as') = bytes "SET " ++ (assignments_text as' ++ bytes "|")
clause_text (delete_clause vs detach) = bytes "DELETE|"
clause_text (unwind e alias) = bytes "UNWIND|"

unfoldable pub ast_cache_key : Statement → Bytes
unfolding clause_text
ast_cache_key [] = []
ast_cache_key (c ∷ cs) = clause_text c ++ ast_cache_key cs
