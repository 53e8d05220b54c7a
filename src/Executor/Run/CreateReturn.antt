-- ===== src/Executor/Run/CreateReturn.antt =====
-- A statement that creates a node and returns it.
use tsurugi_graph.Base.{
  ℕ, ◌≡◌, refl, ◌∙◌, Bool, true, false, Option, none, some, List, [], ◌∷◌, ◌++◌, arith, Bytes,
  bytes, if◌then◌else◌, eq_bytes, find, erase, eq_bytes_refl, append_assoc, append-nil,
}
use tsurugi_graph.Ast
use tsurugi_graph.Ast.{
  Expression, variable, PatternNode, PatternPath, ReturnItem, Clause, return_clause, Statement,
}
use tsurugi_graph.Kvs.{Kvs, IsKvs}
use tsurugi_graph.Json.Render.{render}
use tsurugi_graph.Storage.State.{World, is_open}
use tsurugi_graph.Storage.Frame.{HasTables}
use tsurugi_graph.Storage.Nodes.{get_node, create_node}
use tsurugi_graph.Storage.NodeReads.{get_node-create_node}
use tsurugi_graph.Executor.State.{Executor, ids_of, done, evaluate_properties}
use tsurugi_graph.Executor.Create.{first_id, bind_one, resolve_node, create_path, execute_create}
use tsurugi_graph.Executor.Update.{Pending}
use tsurugi_graph.Executor.Return.{
  execute_return, rows_text, max_rows, get_elem?, item_value, object_text,
}
use tsurugi_graph.Executor.Return.Rows.{direct, execute_return-rows_text}
use tsurugi_graph.Executor.Run.{execute, execute_clause}
use tsurugi_graph.Service.Attempt.{new_executor}

module _ {S : Type 0} (kvs : Kvs S) (laws : IsKvs kvs) (stod : Bytes → Option ℕ)
    (iteration : Pending → Pending) (concurrency tx : ℕ) (w : World S) (tables : HasTables w.store)
    (node : PatternNode) where
  -- The text of the node's properties.
  abbrev pub text : Bytes
  text = evaluate_properties [] node.properties

  abbrev pub made : Bool × ℕ × World S
  made = create_node kvs stod tx node.label text w

  -- The executor behind CREATE.
  abbrev bound : Executor S
  bound = record {
    world = made.2;
    context = (node.variable, made.1 ∷ []) ∷ [];
    context_labels = [];
    unwind_context = [];
  }

  read_open :
      (properties : Option Bytes) (ready : Bool)
      → (if ready then properties else none) ≡ some text
      → (ready ≡ true) × (properties ≡ some text)
  read_open properties true h = (refl, h)
  read_open properties false h = absurd (ground arith)

  made_read :
      made.0 ≡ true
      → (is_open tx made.2.store.nodes_handle ≡ true)
        × (direct kvs tx made.2 node.variable made.1 ≡ some text)
  unfolding get_node
  made_read ok = read_open _ _ (get_node-create_node kvs laws stod tx w tables node.label text ok)

  resolve_node-made :
      eq_bytes node.variable [] ≡ false
      → made.0 ≡ true
      → resolve_node kvs stod tx node (new_executor w) ≡ (true, made.1, bound)
  unfolding resolve_node first_id find erase
  resolve_node-made ne ok = rw (ne, resolve_node) (rw (ok, resolve_node) (rw (ne, bind_one) refl))

  -- The node alone in a path, and its variable.
  abbrev pub pattern : List PatternPath
  pattern = (record { node = node; relationship = none } ∷ []) ∷ []

  abbrev pub items : List ReturnItem
  items = record { expr = variable node.variable; alias = [] } ∷ []

  execute_create-made :
      eq_bytes node.variable [] ≡ false
      → made.0 ≡ true
      → execute_create kvs stod tx pattern (new_executor w) ≡ (true, bound)
  unfolding execute_create create_path
  execute_create-made ne ok = rw (resolve_node-made ne ok, create_path) refl

  -- The result: an array of one object, with the node's text under its variable.
  abbrev pub one_row : Bytes
  one_row = bytes "[{\"" ++ (node.variable ++ (bytes "\": " ++ (text ++ bytes "}]")))

  ids-bound : ids_of node.variable bound ≡ made.1 ∷ []
  unfolding find
  ids-bound = rw (eq_bytes_refl node.variable) refl

  text_some : eq_bytes text [] ≡ false
  unfolding evaluate_properties render eq_bytes
  text_some = refl

  value-made :
      made.0 ≡ true
      → item_value kvs tx (direct kvs tx made.2) bound 0 (variable node.variable) ≡ text
  unfolding item_value get_elem? object_text
  value-made ok =
      rw (ids-bound, item_value)
        (rw ((made_read ok).1, object_text) (rw (text_some, object_text) refl))

  max_rows-made : eq_bytes node.variable [] ≡ false → max_rows items bound 1 ≡ 1
  unfolding max_rows
  max_rows-made ne = rw ne (rw ids-bound refl)

  rows-made :
      made.0 ≡ true
      → b'[' ∷ (rows_text kvs tx (direct kvs tx made.2) bound items 0 1 ++ b']' ∷ []) ≡ one_row
  unfolding rows_text eq_bytes
  rows-made ok = rw (value-made ok) (simp (append_assoc, append-nil))

  execute_return-made :
      eq_bytes node.variable [] ≡ false
      → made.0 ≡ true
      → execute_return kvs tx items bound ≡ one_row
  unfolding find
  execute_return-made ne ok =
      execute_return-rows_text kvs tx items bound (made_read ok).0 (ground arith)
      ∙ rw (max_rows-made ne) (rows-made ok)

  -- Where the tables are there, and the creation of the node succeeds, a statement that creates one
  -- node under a variable and returns it is done, and its result is an array of one object, with
  -- the text of the node's properties under the variable's name.
  pub execute-create_return :
      eq_bytes node.variable [] ≡ false
      → made.0 ≡ true
      → ((execute kvs stod iteration concurrency tx
            (Ast.create pattern ∷ return_clause items ∷ [])
            []
            (new_executor w)).0
          ≡ done)
        × ((execute kvs stod iteration concurrency tx
              (Ast.create pattern ∷ return_clause items ∷ [])
              []
              (new_executor w)).1
            ≡ one_row)
  unfolding execute execute_clause
  execute-create_return ne ok = rw (execute_create-made ne ok) (refl, execute_return-made ne ok)
