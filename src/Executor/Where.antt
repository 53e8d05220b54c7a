-- ===== src/Executor/Where.antt =====
-- `execute_where`: by an index where the variable has a label, or by reading the nodes in batches.
pub mod Batches
pub mod ByIndex
pub mod Fused
use tsurugi_graph.Base.{
  ℕ, zero, suc, ◌+◌, ◌-◌, ◌*◌, ◌/◌, Bool, true, false, ◌&&◌, ◌||◌, not, Option, none, some, List,
  [], ◌∷◌, ◌++◌, Bytes, if◌then◌else◌, eq_bytes, find, assign, find_id, assign_id, length, take,
  drop, keep, ltb, leb, ◌==◌, sort, set_intersection,
}
use tsurugi_graph.Ast.{
  Expression, literal, variable, property_access, binary, list_literal, map_literal, WhereClause,
  legacy_value,
}
use tsurugi_graph.Json.Value.{get_json_value}
use tsurugi_graph.Kvs.{Kvs}
use tsurugi_graph.Storage.State.{World}
use tsurugi_graph.Storage.Nodes.{get_nodes_batch}
use tsurugi_graph.Storage.Index.Read.{
  Op, eq, ne, gt, lt, ge, le, other, op_of, double_eq, double_less, compare_double, compare_text,
  find_nodes_by_property, find_nodes_by_property_range,
}
use tsurugi_graph.Executor.State.{Executor, or_empty, label_of, batch_size, parallel_threshold}
use tsurugi_graph.Executor.Match.{is_empty}

-- The value to compare with, and its number where it is a number's literal that `stod` reads.
pub record Comparison : Type 0 where
  pub op : Op
  pub text : Bytes
  pub number : Option ℕ

-- The two values of the legacy `value`: `""` and not numeric where it is no literal.
unfoldable pub comparison_value : (Bytes → Option ℕ) → Option Expression → Bytes × Option ℕ
comparison_value stod none = ([], none)
comparison_value stod (some (literal v true)) = (v, none)
comparison_value stod (some (literal v false)) = (v, stod v)
comparison_value stod (some (variable n)) = ([], none)
comparison_value stod (some (property_access v k)) = ([], none)
comparison_value stod (some (binary l o r)) = ([], none)
comparison_value stod (some (list_literal es)) = ([], none)
comparison_value stod (some (map_literal es)) = ([], none)

unfoldable pub comparison_of : (Bytes → Option ℕ) → WhereClause → Comparison
unfolding comparison_value
comparison_of stod w =
    let (text, number) = comparison_value stod (legacy_value w) in
    record { op = op_of w.op; text = text; number = number }

module _ (stod : Bytes → Option ℕ) where
  -- The tests of `filter_node` behind the first: as numbers if the literal is one, or as texts.
  unfoldable pub holds_for : Comparison → Bytes → Bool
  holds_for c val = elim c.op [
    | eq ↦ eq_bytes val c.text
    | _ ↦ elim c.number [
      | none ↦ compare_text c.op val c.text
      | some n ↦ elim (stod val) [ none ↦ false | some v ↦ compare_double c.op v n ]
    ]
  ]

  -- `filter_node` on the node's text, which may be missing.
  unfoldable pub passes : Bytes → Comparison → Option Bytes → Bool
  unfolding holds_for
  passes key c none = false
  passes key c (some text) =
      let val = get_json_value text key in if is_empty val then false else holds_for c val

-- `props_map[id] = &props;` for each result of the batch.
unfoldable pub map_of : List (ℕ × Bytes) → List (ℕ × Bytes) → List (ℕ × Bytes)
map_of m [] = m
map_of m ((id, props) ∷ rs) = map_of (assign_id id props m) rs

-- The slices of `chunk_sz` ids, one for each thread: a thread that would begin behind the end is
-- not started. Their results are joined in the order of the threads.
unfoldable pub parallel_keep : ℕ → ℕ → (ℕ → Bool) → List ℕ → List ℕ
parallel_keep zero chunk_sz p ids = []
parallel_keep (suc threads) chunk_sz p ids = elim ids [
  | [] ↦ []
  | id ∷ rest ↦
      keep p (take chunk_sz (id ∷ rest))
      ++ parallel_keep threads chunk_sz p (drop chunk_sz (id ∷ rest))
]

-- `std::max(std::min(hardware_concurrency, size / 1000), 2)`
unfoldable pub num_threads : ℕ → ℕ → ℕ
num_threads concurrency size =
    let n = if leb concurrency (size / 1000) then concurrency else size / 1000 in
    if ltb n 2 then 2 else n

unfoldable pub keep_chunk : ℕ → (ℕ → Bool) → List ℕ → List ℕ
unfolding parallel_keep num_threads
keep_chunk concurrency p ids =
    let n = num_threads concurrency (length ids) in
    if leb parallel_threshold (length ids)
    then parallel_keep n ((length ids + n - 1) / n) p ids
    else keep p ids

module _ {S : Type 0} (kvs : Kvs S) (stod : Bytes → Option ℕ) (concurrency tx : ℕ) where
  -- One chunk: its nodes are read, and its ids are filtered.
  unfoldable pub filter_chunk : Bytes → Comparison → World S → List ℕ → List ℕ
  unfolding passes map_of keep_chunk
  filter_chunk key c w ids =
      let props = map_of [] (or_empty (get_nodes_batch kvs tx ids w)) in
      keep_chunk concurrency (λ id. passes stod key c (find_id id props)) ids

  -- The loop over `batch_off`. Each round takes an id at least.
  unfoldable pub filter_batches : ℕ → Bytes → Comparison → World S → List ℕ → List ℕ
  unfolding filter_chunk
  filter_batches zero key c w ids = []
  filter_batches (suc fuel) key c w [] = []
  filter_batches (suc fuel) key c w (id ∷ ids) =
      filter_chunk key c w (take batch_size (id ∷ ids))
      ++ filter_batches fuel key c w (drop batch_size (id ∷ ids))

  unfoldable pub full_scan : Bytes → Comparison → World S → List ℕ → List ℕ
  unfolding filter_batches
  full_scan key c w ids = filter_batches (length ids) key c w ids

  -- The ids of the index for the operator: `none` where it is not used, or fails.
  unfoldable pub index_lookup : WhereClause → Bytes → Executor S → Option (List ℕ)
  index_lookup w text ex =
      let label = label_of w.variable ex in
      if is_empty label then none else (elim (op_of w.op) [
        | eq ↦ find_nodes_by_property kvs stod tx label w.property text ex.world
        | ne ↦ none
        | _ ↦ find_nodes_by_property_range kvs stod tx label w.property w.op text ex.world
      ])

  unfoldable pub filtered_ids : WhereClause → List ℕ → Executor S → List ℕ
  unfolding comparison_of index_lookup full_scan
  filtered_ids w ids ex =
      let c = comparison_of stod w in
      elim (index_lookup w c.text ex) [
        | some results ↦ set_intersection (sort ids) (sort results)
        | none ↦ full_scan w.property c ex.world ids
      ]

  -- It always returns true.
  unfoldable pub execute_where : WhereClause → Executor S → Executor S
  unfolding filtered_ids
  execute_where w ex = elim (find w.variable ex.context) [
    | none ↦ ex
    | some ids ↦
        if is_empty w.variable || is_empty w.property
        then ex
        else record ex { context = assign w.variable (filtered_ids w ids ex) ex.context }
  ]
