-- ===== src/Json/Render.antt =====
-- The text that `evaluate_properties` builds from keys and the texts of their values.
use tsurugi_graph.Base.{Bool, true, false, List, [], ◌∷◌, ◌++◌, Bytes, bytes, if◌then◌else◌}
use tsurugi_graph.Json.Parse.{quote}

unfoldable pub quoted : Bytes → Bytes
quoted s = quote ∷ (s ++ quote ∷ [])

-- `"key": value`
unfoldable pub render_entry : Bytes × Bytes → Bytes
unfolding quoted
render_entry e = quoted e.0 ++ (bytes ": " ++ e.1)

-- The flag is `first`.
unfoldable pub render_entries : Bool → List (Bytes × Bytes) → Bytes
unfolding render_entry
render_entries first [] = []
render_entries first (e ∷ es) =
    (if first then [] else bytes ", ") ++ (render_entry e ++ render_entries false es)

unfoldable pub render : List (Bytes × Bytes) → Bytes
unfolding render_entries
render es = 123 ∷ (render_entries true es ++ 125 ∷ [])

-- The text of a literal's value.
unfoldable pub value_text : Bool → Bytes → Bytes
unfolding quoted
value_text is_string value = if is_string then quoted value else value
