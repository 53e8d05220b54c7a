-- ===== src/Executor/Return.antt =====
-- `execute_return`: a row for each position of the longest variable, with the nodes of each batch of
-- rows read at once.
pub mod Cover
pub mod Rows
use tsurugi_graph.Base.{
  ℕ, zero, suc, ◌+◌, ◌-◌, Bool, true, false, ◌||◌, Option, none, some, List, [], ◌∷◌, ◌++◌, Bytes,
  bytes, if◌then◌else◌, ◌&&◌, eq_bytes, lt_bytes, find, find_id, length, take, drop, ltb, ◌==◌,
}
use tsurugi_graph.Ast.{
  Expression, literal, variable, property_access, binary, list_literal, map_literal, ReturnItem,
}
use tsurugi_graph.Json.Value.{get_json_value}
use tsurugi_graph.Json.Render.{quoted}
use tsurugi_graph.Kvs.{Kvs}
use tsurugi_graph.Lexer.{is_digit}
use tsurugi_graph.Records.{EdgeData, found, rejected, out_of_bounds}
use tsurugi_graph.Storage.State.{World}
use tsurugi_graph.Storage.Nodes.{get_node, get_nodes_batch}
use tsurugi_graph.Storage.Edges.{get_edge, reads_behind}
use tsurugi_graph.Template.Normalize.{decimal}
use tsurugi_graph.Executor.State.{Executor, or_empty, ids_of, batch_size}
use tsurugi_graph.Executor.Match.{is_empty}
use tsurugi_graph.Executor.Where.{map_of}

-- The variable of a RETURN item, `""` where it is no variable and no property.
unfoldable pub variable_of : Expression → Bytes
variable_of (variable n) = n
variable_of (property_access v k) = v
variable_of (literal v s) = []
variable_of (binary l o r) = []
variable_of (list_literal es) = []
variable_of (map_literal es) = []

-- `std::set<std::string>::insert`
unfoldable pub insert_name : Bytes → List Bytes → List Bytes
insert_name n [] = n ∷ []
insert_name n (m ∷ ms) =
    let later = m ∷ insert_name n ms in
    if eq_bytes m n then m ∷ ms else if lt_bytes n m then n ∷ m ∷ ms else later

unfoldable pub needed_vars : List ReturnItem → List Bytes → List Bytes
unfolding variable_of insert_name
needed_vars [] names = names
needed_vars (i ∷ is) names =
    needed_vars is
      (if is_empty (variable_of i.expr) then names else insert_name (variable_of i.expr) names)

abbrev pub max : ℕ → ℕ → ℕ
max a b = if ltb a b then b else a

unfoldable pub max_rows : {S : Type 0} → List ReturnItem → Executor S → ℕ → ℕ
unfolding variable_of
max_rows [] ex rows = rows
max_rows (i ∷ is) ex rows = max_rows is ex (
    if is_empty (variable_of i.expr)
    then rows
    else max rows (length (ids_of (variable_of i.expr) ex)))

-- `ids[row]` within bounds.
unfoldable pub get_elem? : List ℕ → ℕ → Option ℕ
get_elem? [] i = none
get_elem? (x ∷ xs) zero = some x
get_elem? (x ∷ xs) (suc i) = get_elem? xs i

abbrev pub null : Bytes
null = bytes "null"

abbrev pub number_text : ℕ → Bytes
number_text n = decimal 20 n

-- The object of an edge. Its properties are left out where there are none.
unfoldable pub edge_text : ℕ → EdgeData → Bytes
edge_text id e =
    bytes "{\"_id\": "
    ++ (number_text id
        ++ (bytes ", \"_from\": "
            ++ (number_text e.from_id
                ++ (bytes ", \"_to\": "
                    ++ (number_text e.to_id
                        ++ (bytes ", \"_label\": \""
                            ++ (e.label
                                ++ (bytes "\""
                                    ++ ((if is_empty e.properties
                                            || eq_bytes e.properties (bytes "{}")
                                          then []
                                          else bytes ", \"_properties\": " ++ e.properties)
                                        ++ bytes "}")))))))))

-- A property's text: a number is written as it is.
unfoldable pub property_text : Bytes → Bytes
unfolding quoted
property_text [] = null
property_text (c ∷ s) = if is_digit c || c == 45 then c ∷ s else quoted (c ∷ s)

abbrev pub alias_of : Bytes → Bytes → Bytes
alias_of alias name = if is_empty alias then name else alias

module _ {S : Type 0} (kvs : Kvs S) (tx : ℕ) where
  -- A node's text, or an edge, or null. An edge that is read behind the end of its value is null
  -- here, and `return_undefined` tells that one is read.
  unfoldable pub object_text : Option Bytes → ℕ → World S → Bytes
  unfolding edge_text
  object_text props id w =
      let as_edge : Bytes = elim (get_edge kvs tx id w) [
        | found e ↦ edge_text id e
        | rejected ↦ null
        | out_of_bounds ↦ null
      ] in
      elim props [ none ↦ as_edge | some text ↦ if is_empty text then as_edge else text ]

  -- `row < ids.size()` with what the reads of the batch gave for the id.
  unfoldable pub item_value : (Bytes → ℕ → Option Bytes) → Executor S → ℕ → Expression → Bytes
  unfolding object_text property_text
  item_value props_of ex row (variable n) = elim (get_elem? (ids_of n ex) row) [
    | none ↦ null
    | some id ↦ object_text (props_of n id) id ex.world
  ]
  item_value props_of ex row (property_access v k) = elim (get_elem? (ids_of v ex) row) [
    | none ↦ null
    | some id ↦
        let props = or_empty (props_of v id) in
        if is_empty props then null else property_text (get_json_value props k)
  ]
  item_value props_of ex row (literal v s) = []
  item_value props_of ex row (binary l o r) = []
  item_value props_of ex row (list_literal es) = []
  item_value props_of ex row (map_literal es) = []

  -- `"alias": value`; nothing for other expressions.
  unfoldable pub item_text : (Bytes → ℕ → Option Bytes) → Executor S → ℕ → ReturnItem → Bytes
  unfolding item_value quoted
  item_text props_of ex row i = elim i.expr [
    | variable n ↦
        quoted (alias_of i.alias n) ++ (bytes ": " ++ item_value props_of ex row (variable n))
    | property_access v k ↦
        quoted (alias_of i.alias (v ++ (bytes "." ++ k)))
        ++ (bytes ": " ++ item_value props_of ex row (property_access v k))
    | _ ↦ []
  ]

  -- The flag is `first`.
  unfoldable pub items_text :
      (Bytes → ℕ → Option Bytes) → Executor S → ℕ → Bool → List ReturnItem → Bytes
  unfolding item_text
  items_text props_of ex row first [] = []
  items_text props_of ex row first (i ∷ is) =
      (if first then [] else bytes ", ")
      ++ (item_text props_of ex row i ++ items_text props_of ex row false is)

  unfoldable pub row_text : (Bytes → ℕ → Option Bytes) → Executor S → List ReturnItem → ℕ → Bytes
  unfolding items_text
  row_text props_of ex items row =
      (if ltb 0 row then bytes ", " else [])
      ++ (bytes "{" ++ (items_text props_of ex row true items ++ bytes "}"))

  -- The rows from `row` on, `count` of them.
  unfoldable pub rows_text :
      (Bytes → ℕ → Option Bytes) → Executor S → List ReturnItem → ℕ → ℕ → Bytes
  unfolding row_text
  rows_text props_of ex items row zero = []
  rows_text props_of ex items row (suc count) =
      row_text props_of ex items row ++ rows_text props_of ex items (suc row) count

  -- `batch_cache` for the rows from `start` on: nothing is read for a variable with no id there.
  unfoldable pub batch_cache : List Bytes → ℕ → ℕ → Executor S → List (Bytes × List (ℕ × Bytes))
  unfolding map_of
  batch_cache [] start count ex = []
  batch_cache (n ∷ ns) start count ex =
      let ids = take count (drop start (ids_of n ex)) in
      let rest = batch_cache ns start count ex in
      elim ids [
        | [] ↦ rest
        | id ∷ more ↦ (n, map_of [] (or_empty (get_nodes_batch kvs tx (id ∷ more) ex.world))) ∷ rest
      ]

  -- `batch_cache[name].find(id)`
  unfoldable pub cached : List (Bytes × List (ℕ × Bytes)) → Bytes → ℕ → Option Bytes
  cached cache name id = find_id id (or_empty (find name cache))

  -- The batches of rows; each takes a row at least.
  unfoldable pub batches_text : ℕ → Executor S → List ReturnItem → List Bytes → ℕ → ℕ → Bytes
  unfolding batch_cache rows_text cached
  batches_text zero ex items names start left = []
  batches_text (suc fuel) ex items names start zero = []
  batches_text (suc fuel) ex items names start (suc left) =
      let count = if ltb batch_size (suc left) then batch_size else suc left in
      rows_text (cached (batch_cache names start count ex)) ex items start count
      ++ batches_text fuel ex items names (start + count) (suc left - count)

  -- One of the ids has no node with a text, and as an edge it is read behind the end of its value.
  unfoldable pub any_object_undefined : Bytes → List ℕ → World S → Bool
  unfolding reads_behind
  any_object_undefined name [] w = false
  any_object_undefined name (id ∷ ids) w =
      ((is_empty name || is_empty (or_empty (get_node kvs tx id w))) && reads_behind kvs tx id w)
      || any_object_undefined name ids w

  unfoldable pub item_undefined : ℕ → Executor S → Expression → Bool
  unfolding any_object_undefined
  item_undefined rows ex (variable n) = any_object_undefined n (take rows (ids_of n ex)) ex.world
  item_undefined rows ex (property_access v k) = false
  item_undefined rows ex (literal v s) = false
  item_undefined rows ex (binary l o r) = false
  item_undefined rows ex (list_literal es) = false
  item_undefined rows ex (map_literal es) = false

  -- A row reads an edge behind the end of its value.
  unfoldable pub return_undefined : ℕ → List ReturnItem → Executor S → Bool
  unfolding item_undefined
  return_undefined rows [] ex = false
  return_undefined rows (i ∷ is) ex = item_undefined rows ex i.expr || return_undefined rows is ex

  -- The text that `result_json` gets. It always returns true.
  unfoldable pub execute_return : List ReturnItem → Executor S → Bytes
  unfolding batches_text needed_vars max_rows
  execute_return items ex =
      let rows = max_rows items ex 1 in
      bytes "[" ++ (batches_text rows ex items (needed_vars items []) 0 rows ++ bytes "]")
