-- ===== src/Tests/Clauses.antt =====
-- The clauses of the executor, on a store in memory.
use tsurugi_graph.Base.{
  has, List, [], bytes, contains, eq_bytes, false, find, find_byte, has_prefix, none, refl, some,
  span, true, ◌&&◌, ◌++◌, ◌∷◌, ◌≡◌,
}
use tsurugi_graph.Keys.{to_key, be_bytes, from_be, from_key_ptr, encode_sortable_double}
use tsurugi_graph.Kvs.{Memory, memory_kvs, entry_of, memory-IsKvs}
use tsurugi_graph.Ast
use tsurugi_graph.Ast.{
  Statement, PatternNode, no_entries, entry, literal, property_access, WhereClause, own,
  legacy_value, ReturnItem, return_clause,
}
use tsurugi_graph.Executor.State.{Executor, done, evaluate_properties}
use tsurugi_graph.Executor.Where.ByIndex.{contains-filtered_ids}
use tsurugi_graph.Executor.Return.{execute_return, rows_text, max_rows}
use tsurugi_graph.Executor.Return.Rows.{direct, execute_return-rows_text}
use tsurugi_graph.Executor.Run.{execute}
use tsurugi_graph.Executor.Run.CreateReturn.{made, pattern, items, one_row, execute-create_return}
use tsurugi_graph.Service.Attempt.{new_executor}
use tsurugi_graph.Storage.State.{is_open}
use tsurugi_graph.Storage.Index.Read.{op_of, find_nodes_by_property}
use tsurugi_graph.Json.Parse.{parse_json_properties, read_entry, at_brace}
use tsurugi_graph.Storage.Index.Key.{build_prop_index_key}
use tsurugi_graph.Records.{unpack_ids}
use tsurugi_graph.Executor.Update.{Pending}
use tsurugi_graph.Executor.Where.{comparison_value, comparison_of, index_lookup, filtered_ids}
use tsurugi_graph.Tests.Tables.{opened, start, stod, opened-HasTables}
use tsurugi_graph.Storage.Nodes.{create_node, index_new_node}
use tsurugi_graph.Storage.Ids.{allocate_id}
use tsurugi_graph.Storage.Index.Write.{has_properties, index_node_properties, add_entry}
use tsurugi_graph.Json.Render.{value_text}
use tsurugi_graph.Executor.Update.{execute_delete}
use tsurugi_graph.Executor.Update.Stale.{execute_delete-find_nodes_by_property}
use tsurugi_graph.Executor.Update.Deletes.{execute_delete-Blank}
use tsurugi_graph.Executor.State.{or_empty}
use tsurugi_graph.Kvs.{memory-IsReliable}
use tsurugi_graph.Storage.Nodes.{get_node}

abbrev in_order : Pending → Pending
in_order p = p

-- A person and a WHERE clause on a variable that MATCH bound by its label.
abbrev person : PatternNode
person = record {
  variable = bytes "n";
  label = bytes "P";
  properties = entry (bytes "age") (literal (bytes "1") false) no_entries;
}

person-made :
    (made memory_kvs memory-IsKvs stod in_order 4 1 start opened-HasTables person).0 ≡ true
unfolding memory_kvs create_node allocate_id evaluate_properties
person-made = refl

named_n : eq_bytes (bytes "n") [] ≡ false
unfolding eq_bytes
named_n = refl

execute-create_return_example :
    ((execute memory_kvs stod in_order 4 1
        (Ast.create
            (pattern memory_kvs memory-IsKvs stod in_order 4 1 start opened-HasTables person)
          ∷ return_clause
              (items memory_kvs memory-IsKvs stod in_order 4 1 start opened-HasTables person)
          ∷ [])
        []
        (new_executor start)).0
      ≡ done)
    × ((execute memory_kvs stod in_order 4 1
          (Ast.create
              (pattern memory_kvs memory-IsKvs stod in_order 4 1 start opened-HasTables person)
            ∷ return_clause
                (items memory_kvs memory-IsKvs stod in_order 4 1 start opened-HasTables person)
            ∷ [])
          []
          (new_executor start)).1
        ≡ one_row memory_kvs memory-IsKvs stod in_order 4 1 start opened-HasTables person)
execute-create_return_example =
    execute-create_return memory_kvs memory-IsKvs stod in_order 4 1 start opened-HasTables person
      named_n person-made

one_row-person :
    one_row memory_kvs memory-IsKvs stod in_order 4 1 start opened-HasTables person
    ≡ bytes "[{\"n\": {\"age\": 1}}]"
unfolding evaluate_properties value_text
one_row-person = refl

-- Two ids for the variable, of which the index gives one.
abbrev matched : Executor Memory
matched = record {
  world = (create_node memory_kvs stod 1 (bytes "P") (bytes "{\"age\": 1}") start).2;
  context = (bytes "n", 2 ∷ 1 ∷ []) ∷ [];
  context_labels = (bytes "n", bytes "P") ∷ [];
  unwind_context = [];
}

abbrev pub age_is_one : WhereClause
age_is_one = record {
  condition = literal (bytes "1") false;
  variable = bytes "n";
  property = bytes "age";
  op = bytes "=";
  value = own (literal (bytes "1") false);
}

found_by_index :
    index_lookup memory_kvs stod 4 1 age_is_one (comparison_of stod age_is_one).text matched
    ≡ some (1 ∷ [])
unfolding memory_kvs create_node allocate_id index_lookup comparison_of eq_bytes find op_of
    find_nodes_by_property index_new_node has_properties index_node_properties parse_json_properties
    find_byte span at_brace has_prefix build_prop_index_key encode_sortable_double to_key be_bytes
    legacy_value comparison_value entry_of unpack_ids from_key_ptr from_be read_entry add_entry
found_by_index = refl

contains-filtered_ids_example :
    contains 2 (filtered_ids memory_kvs stod 4 1 age_is_one (2 ∷ 1 ∷ []) matched)
    ≡ (contains 2 (2 ∷ 1 ∷ []) && contains 2 (1 ∷ []))
contains-filtered_ids_example =
    contains-filtered_ids memory_kvs stod 4 1 age_is_one (2 ∷ 1 ∷ []) (1 ∷ []) matched 2
      found_by_index

abbrev age_of_n : List ReturnItem
age_of_n = record { expr = property_access (bytes "n") (bytes "age"); alias = [] } ∷ []

matched_is_open : is_open 1 matched.world.store.nodes_handle ≡ true
unfolding memory_kvs create_node allocate_id index_new_node eq_bytes has_properties
    index_node_properties
matched_is_open = refl

no_empty_name : find [] matched.context ≡ none
unfolding find eq_bytes
no_empty_name = refl

execute_return-rows_text_example :
    execute_return memory_kvs 1 age_of_n matched
    ≡ b'['
      ∷ (rows_text memory_kvs 1
            (direct memory_kvs 1 matched.world)
            matched
            age_of_n
            0
            (max_rows age_of_n matched 1)
          ++ b']' ∷ [])
execute_return-rows_text_example =
    execute_return-rows_text memory_kvs 1 age_of_n matched matched_is_open no_empty_name

n_is_named : has (bytes "n") (bytes "m" ∷ bytes "n" ∷ []) ≡ true
unfolding eq_bytes has
n_is_named = refl

n_is_bound : find (bytes "n") matched.context ≡ some (2 ∷ 1 ∷ [])
unfolding find eq_bytes
n_is_bound = refl

one_is_bound : contains 1 (2 ∷ 1 ∷ []) ≡ true
unfolding contains
one_is_bound = refl

execute_delete-Blank_example :
    or_empty (
      get_node memory_kvs 1 1
        (execute_delete memory_kvs 1 (bytes "m" ∷ bytes "n" ∷ []) true matched).world)
    ≡ []
execute_delete-Blank_example =
    execute_delete-Blank memory_kvs memory-IsKvs memory-IsReliable 1 (bytes "m" ∷ bytes "n" ∷ [])
      (bytes "n") true (2 ∷ 1 ∷ []) 1 matched matched_is_open n_is_named n_is_bound one_is_bound

-- The index finds the node also after it was deleted.
abbrev matched_tables : Executor Memory
matched_tables = record matched { world = record matched.world { store = opened } }

execute_delete-find_nodes_by_property_example :
    find_nodes_by_property memory_kvs stod 1
      (bytes "P")
      (bytes "age")
      (bytes "1")
      (execute_delete memory_kvs 1 (bytes "n" ∷ []) false matched_tables).world
    ≡ find_nodes_by_property memory_kvs stod 1
        (bytes "P")
        (bytes "age")
        (bytes "1")
        matched_tables.world
execute_delete-find_nodes_by_property_example =
    execute_delete-find_nodes_by_property memory_kvs memory-IsKvs 1 stod (bytes "P") (bytes "age")
      (bytes "1") (bytes "n" ∷ []) false matched_tables opened-HasTables
