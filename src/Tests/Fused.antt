-- ===== src/Tests/Fused.antt =====
-- `MATCH (n:P) WHERE n.age = 1` in one step and in two.
use tsurugi_graph.Base.{
  ◌≡◌, refl, true, false, some, [], ◌∷◌, bytes, eq_bytes, find, find_byte, has_prefix, span,
  contains, keep,
}
use tsurugi_graph.Keys.{to_key, be_bytes, from_be, from_key_ptr, encode_sortable_double}
use tsurugi_graph.Records.{unpack_ids}
use tsurugi_graph.Json.Parse.{parse_json_properties, at_brace, read_entry}
use tsurugi_graph.Ast.{PatternNode, no_entries, legacy_value}
use tsurugi_graph.Kvs.{Memory, memory_kvs, entry_of}
use tsurugi_graph.Storage.Ids.{allocate_id}
use tsurugi_graph.Storage.Index.Key.{build_prop_index_key}
use tsurugi_graph.Storage.Index.Write.{add_entry, has_properties, index_node_properties}
use tsurugi_graph.Storage.Index.Read.{find_nodes_by_property}
use tsurugi_graph.Storage.Nodes.{create_node, index_new_node}
use tsurugi_graph.Storage.Scan.{next_in, find_nodes_by_label_iter}
use tsurugi_graph.Executor.State.{Executor, ids_of}
use tsurugi_graph.Executor.Match.{scanned_ids, try_indexed_match_where}
use tsurugi_graph.Executor.Hops.{execute_match}
use tsurugi_graph.Executor.Where.{execute_where}
use tsurugi_graph.Executor.Where.Fused.{IsFusible, single, try_indexed_match_where-execute_where}
use tsurugi_graph.Tests.Tables.{start, stod}
use tsurugi_graph.Tests.Clauses.{age_is_one}

abbrev node : PatternNode
node = record { variable = bytes "n"; label = bytes "P"; properties = no_entries }

abbrev aged : Executor Memory
aged = record {
  world = (create_node memory_kvs stod 1 (bytes "P") (bytes "{\"age\": 1}") start).2;
  context = [];
  context_labels = [];
  unwind_context = [];
}

node-IsFusible : IsFusible node age_is_one (bytes "1") false
unfolding eq_bytes legacy_value
node-IsFusible = record {
  labelled = refl;
  named = refl;
  no_properties = refl;
  same = refl;
  equality = refl;
  property = refl;
  value = refl;
}

found_node :
    find_nodes_by_property memory_kvs stod 1 (bytes "P") (bytes "age") (bytes "1") aged.world
    ≡ some (1 ∷ [])
unfolding memory_kvs create_node allocate_id eq_bytes find_nodes_by_property index_new_node
    has_properties index_node_properties parse_json_properties find_byte span at_brace has_prefix
    build_prop_index_key encode_sortable_double to_key be_bytes entry_of unpack_ids from_key_ptr
    from_be read_entry add_entry
found_node = refl

listed_node : contains 1 (scanned_ids memory_kvs stod 1 (bytes "P") no_entries aged.world) ≡ true
unfolding memory_kvs create_node allocate_id eq_bytes index_new_node has_properties
    index_node_properties parse_json_properties find_byte span at_brace has_prefix
    build_prop_index_key encode_sortable_double to_key be_bytes entry_of from_key_ptr from_be
    read_entry add_entry scanned_ids next_in find_nodes_by_label_iter keep contains
listed_node = refl

try_indexed_match_where-execute_where_example :
    (ex1 : Executor Memory) × (try_indexed_match_where memory_kvs stod 1
        (single node)
        age_is_one
        aged
      ≡ some ex1)
    × (contains 1 (ids_of (bytes "n") ex1)
        ≡ contains 1 (
            ids_of (bytes "n") (
              execute_where memory_kvs stod 4 1 age_is_one
                (execute_match memory_kvs stod 1 (single node) aged))))
unfolding find
try_indexed_match_where-execute_where_example =
    try_indexed_match_where-execute_where memory_kvs stod 4 1 node age_is_one (bytes "1") false
      node-IsFusible (1 ∷ []) aged 1 refl found_node (λ h. listed_node)
