-- ===== src/Executor/Run.antt =====
-- `execute` and `execute_unwind`: the clauses of a statement, in order.
pub mod CreateReturn
use tsurugi_graph.Base.{ℕ, Option, none, some, [], ◌∷◌, Bytes, bytes, erase, assign}
use tsurugi_graph.Ast
use tsurugi_graph.Ast.{
  Expression, literal, variable, property_access, binary, list_literal, map_literal, Elements,
  no_elements, element, Entries, no_entries, entry, WhereClause, PatternPath, Clause, return_clause,
  where_clause, delete_clause, set_clause, unwind, Statement,
}
use tsurugi_graph.Kvs.{Kvs}
use tsurugi_graph.Executor.State.{Executor, UnwindBinding, Status, done, failed, threw, status_of}
use tsurugi_graph.Executor.Create.{execute_create}
use tsurugi_graph.Executor.Match.{try_indexed_match_where}
use tsurugi_graph.Executor.Hops.{execute_match}
use tsurugi_graph.Executor.Where.{execute_where}
use tsurugi_graph.Executor.Update.{Pending, execute_delete, execute_set}
use tsurugi_graph.Storage.State.{mark}
use tsurugi_graph.Executor.Return.{max_rows, return_undefined, execute_return}

-- What a method leaves: how it ended, `result_json`, and the executor.
abbrev pub Outcome : Type 0 → Type 0
Outcome S = Status × Bytes × Executor S

-- The statement behind goes on only where this one is done.
abbrev pub and_then : {S : Type 0} → Outcome S → (Bytes → Executor S → Outcome S) → Outcome S
and_then (done, result, ex) k = k result ex
and_then (failed, result, ex) k = (failed, result, ex)
and_then (threw, result, ex) k = (threw, result, ex)

-- The literal entries of a map, with later keys in the place of earlier ones.
unfoldable pub map_binding : Entries → UnwindBinding → UnwindBinding
map_binding no_entries b = b
map_binding (entry k (literal v s) es) b =
    map_binding es
      (record { properties = assign k v b.properties; is_string = assign k s b.is_string })
map_binding (entry k (variable n) es) b = map_binding es b
map_binding (entry k (property_access v p) es) b = map_binding es b
map_binding (entry k (binary l o r) es) b = map_binding es b
map_binding (entry k (list_literal l) es) b = map_binding es b
map_binding (entry k (map_literal m) es) b = map_binding es b

abbrev pub no_binding : UnwindBinding
no_binding = record { properties = []; is_string = [] }

unfoldable pub binding_of : Expression → UnwindBinding
unfolding map_binding
binding_of (map_literal m) = map_binding m no_binding
binding_of (literal v s) = record {
  properties = (bytes "_value", v) ∷ [];
  is_string = (bytes "_value", s) ∷ [];
}
binding_of (variable n) = no_binding
binding_of (property_access v k) = no_binding
binding_of (binary l o r) = no_binding
binding_of (list_literal es) = no_binding

module _ {S : Type 0} (kvs : Kvs S) (stod : Bytes → Option ℕ) (iteration : Pending → Pending)
    (concurrency tx : ℕ) where
  -- A clause other than UNWIND.
  unfoldable pub execute_clause : Clause → Bytes → Executor S → Outcome S
  execute_clause (Ast.create ps) result ex =
      let (ok, ex1) = execute_create kvs stod tx ps ex in (status_of ok, result, ex1)
  execute_clause (Ast.match ps) result ex = (done, result, execute_match kvs stod tx ps ex)
  execute_clause (where_clause w) result ex =
      (done, result, execute_where kvs stod concurrency tx w ex)
  execute_clause (return_clause items) result ex =
      let undefined = return_undefined kvs tx (max_rows items ex 1) items ex in
      (done, execute_return kvs tx items ex, record ex { world = mark undefined ex.world })
  execute_clause (delete_clause names detach) result ex =
      (done, result, execute_delete kvs tx names detach ex)
  execute_clause (set_clause assignments) result ex =
      let (status, ex1) = execute_set kvs stod iteration tx assignments ex in (status, result, ex1)
  execute_clause (unwind e alias) result ex = (done, result, ex)

  -- The clauses behind UNWIND, for one element of its list: an inner UNWIND is passed over, and no
  -- MATCH is fused with its WHERE.
  unfoldable pub execute_body : Statement → Bytes → Executor S → Outcome S
  unfolding execute_clause
  execute_body [] result ex = (done, result, ex)
  execute_body (c ∷ cs) result ex =
      and_then (execute_clause c result ex) λ result1 ex1. execute_body cs result1 ex1

  -- The elements of the list. The variables are forgotten behind each.
  unfoldable pub unwind_elements : Elements → Bytes → Statement → Bytes → Executor S → Outcome S
  unfolding execute_body binding_of
  unwind_elements no_elements alias body result ex =
      (done, result, record ex { unwind_context = erase alias ex.unwind_context })
  unwind_elements (element e es) alias body result ex =
      and_then
        (execute_body body result
          (record ex { unwind_context = assign alias (binding_of e) ex.unwind_context }))
        λ result1 ex1.
          unwind_elements es alias body result1 (record ex1 { context = []; context_labels = [] })

  unfoldable pub execute : Statement → Bytes → Executor S → Outcome S
  unfolding execute_clause unwind_elements
  execute [] result ex = (done, result, ex)
  execute (Ast.match ps ∷ where_clause w ∷ cs) result ex =
      let separate = execute (where_clause w ∷ cs) result (execute_match kvs stod tx ps ex) in
      elim (try_indexed_match_where kvs stod tx ps w ex) [
        | some ex1 ↦ execute cs result ex1
        | none ↦ separate
      ]
  -- Only a list literal with elements is unwound, and then it takes all the clauses behind it.
  execute (unwind (list_literal (element e es)) alias ∷ cs) result ex =
      unwind_elements (element e es) alias cs result ex
  execute (c ∷ cs) result ex =
      and_then (execute_clause c result ex) λ result1 ex1. execute cs result1 ex1
