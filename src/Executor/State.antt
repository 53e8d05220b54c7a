-- ===== src/Executor/State.antt =====
-- The members of class `executor`, and `evaluate_properties`.
use tsurugi_graph.Base.{ℕ, Bool, true, false, Option, none, some, List, [], ◌∷◌, Bytes, find}
use tsurugi_graph.Ast.{
  Expression, variable, literal, property_access, binary, list_literal, map_literal, Entries,
  no_entries, entry,
}
use tsurugi_graph.Json.Render.{render, value_text}
use tsurugi_graph.Storage.State.{World}

-- What UNWIND binds to its alias: the values and which of them are strings.
pub record UnwindBinding : Type 0 where
  pub properties : List (Bytes × Bytes)
  pub is_string : List (Bytes × Bool)

-- The symbol table, the labels of its variables, and the UNWIND bindings.
pub record Executor (S : Type 0) : Type 0 where
  pub world : World S
  pub context : List (Bytes × List ℕ)
  pub context_labels : List (Bytes × Bytes)
  pub unwind_context : List (Bytes × UnwindBinding)

abbrev or_false : Option Bool → Bool
or_false none = false
or_false (some b) = b

-- The text of a bound property, empty where nothing is bound.
unfoldable pub bound_text : List (Bytes × UnwindBinding) → Bytes → Bytes → Bytes
bound_text bindings name key = elim (find name bindings) [
  | none ↦ []
  | some b ↦ elim (find key b.properties) [
    | none ↦ []
    | some value ↦ value_text (or_false (find key b.is_string)) value
  ]
]

-- The text of a property's value: nothing is written for any other expression.
unfoldable pub expression_text : List (Bytes × UnwindBinding) → Expression → Bytes
unfolding bound_text
expression_text bindings (literal v s) = value_text s v
expression_text bindings (property_access name key) = bound_text bindings name key
expression_text bindings (variable n) = []
expression_text bindings (binary l op r) = []
expression_text bindings (list_literal es) = []
expression_text bindings (map_literal es) = []

unfoldable pub property_texts : List (Bytes × UnwindBinding) → Entries → List (Bytes × Bytes)
unfolding expression_text
property_texts bindings no_entries = []
property_texts bindings (entry k e es) =
    (k, expression_text bindings e) ∷ property_texts bindings es

unfoldable pub evaluate_properties : List (Bytes × UnwindBinding) → Entries → Bytes
unfolding property_texts render
evaluate_properties bindings props = render (property_texts bindings props)

-- How a method ends: it returns true or false, or an exception leaves it.
pub data Status : Type 0 where
  done failed threw : Status

abbrev pub status_of : Bool → Status
status_of true = done
status_of false = failed

abbrev pub or_empty {ℓ} : {A : Type ℓ} → Option (List A) → List A
or_empty none = []
or_empty (some xs) = xs

-- What a variable stands for, and its label; empty where it has none.
abbrev pub ids_of : {S : Type 0} → Bytes → Executor S → List ℕ
ids_of name ex = or_empty (find name ex.context)

abbrev pub label_of : {S : Type 0} → Bytes → Executor S → Bytes
label_of name ex = or_empty (find name ex.context_labels)

-- `BATCH_SIZE` and `PARALLEL_THRESHOLD`.
abbrev pub batch_size : ℕ
batch_size = 1024

abbrev pub parallel_threshold : ℕ
parallel_threshold = 10000
