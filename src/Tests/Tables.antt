-- ===== src/Tests/Tables.antt =====
-- The storage layer on a store in memory.
use tsurugi_graph.Base.{
  ℕ, suc, Bool, ◌≤◌, false, ◌*◌, ◌^◌, ◌≡◌, ◌≢◌, refl, ap, keep, has_prefix, keep, has_prefix, true,
  none, some, Option, [], ◌∷◌, ◌++◌, arith, Bytes, bytes, length, eq_bytes, if◌then◌else◌, All,
}
use tsurugi_graph.Keys.{to_key, be_bytes, from_be, from_key_ptr}
use tsurugi_graph.Kvs.{
  create, Memory, memory_kvs, memory-IsKvs, memory-IsReliable, memory-KeepsSequences, empty_memory,
  memory-ScansPrefixes, entry_of,
}
use tsurugi_graph.Records.{
  EdgeData, found, rejected, pack_ids, encode_edge, decode_edge, le_bytes, from_le,
}
use tsurugi_graph.Json.Parse.{parse_json_properties}
use tsurugi_graph.Storage.State.{Storage, World}
use tsurugi_graph.Storage.Ids.{allocate_id, allocate_ids, counted, IsReserved, allocate_ids-counted}
use tsurugi_graph.Storage.Nodes.{get_node, create_node, delete_node, label_key}
use tsurugi_graph.Storage.Edges.{get_edge, create_edge, delete_edge, index_edge, erase_edge}
use tsurugi_graph.Storage.Index.Key.{build_prop_index_key}
use tsurugi_graph.Storage.Index.Write.{stored_text, index_node_properties, remove_property_index}
use tsurugi_graph.Storage.Index.Read.{find_nodes_by_property}
use tsurugi_graph.Storage.Scan.{find_nodes_by_label, find_nodes_by_label_iter, drain, label_ids}
use tsurugi_graph.Storage.Frame.{HasTables, get-put_self}
use tsurugi_graph.Storage.NodeReads.{get_node-create_node, get_node-create_node_ne}
use tsurugi_graph.Storage.EdgeReads.{
  get_edge-create_edge, get_edge-create_edge_ne, get_edge-delete_edge,
}
use tsurugi_graph.Storage.EntryLists.{Holds, hits, left}
use tsurugi_graph.Storage.IndexEntries.{find-index_node_properties, find-remove_property_index}
use tsurugi_graph.Storage.LabelScan.{
  LongKeys, drain-find_nodes_by_label, label_ids_longer, delete_node_stays_listed,
}

abbrev pub opened : Storage
opened = record {
  nodes_handle = 1;
  edges_handle = 2;
  out_index_handle = 3;
  in_index_handle = 4;
  label_index_handle = 5;
  property_index_handle = 6;
  sequence_id = 0;
  sequence_version = 1;
  next_id = 1;
  sequence_batch_remaining = 64;
}

pub opened-HasTables : HasTables opened
opened-HasTables = record {
  nodes_open = refl;
  edges_open = refl;
  out_open = refl;
  in_open = refl;
  label_open = refl;
  property_open = refl;
  label_nodes = refl;
  property_nodes = refl;
  property_label = refl;
  out_edges = refl;
  in_edges = refl;
  in_out = refl;
  label_edges = refl;
  property_edges = refl;
  property_out = refl;
  property_in = refl;
  nodes_edges = refl;
}

-- The tables are empty, and a batch of 64 ids is reserved.
abbrev pub start : World Memory
start = record {
  store = opened;
  db = (memory_kvs.sequence_put empty_memory 0 1 64).1;
  undefined = false;
}

-- `std::stod`, as far as the examples go: the bits of 1.0.
abbrev pub stod : Bytes → Option ℕ
stod s = if eq_bytes s (bytes "1") then some (1023 * 2 ^ 52) else none

start-IsReserved : IsReserved memory_kvs start 64
unfolding memory_kvs
start-IsReserved = record { version = 1; stored = refl; reserved = refl; small = omega arith }

memory_puts :
    (s : Memory) (id version value : ℕ) → (memory_kvs.sequence_put s id version value).0 ≡ true
unfolding memory_kvs
memory_puts s id version value = refl

allocate_ids-counted_example :
    ((allocate_ids memory_kvs 70 start).0 ≡ counted 70 start.store.next_id)
    × (value : ℕ) × IsReserved memory_kvs (allocate_ids memory_kvs 70 start).1 value
    × All (λ id. id ≤ value) (allocate_ids memory_kvs 70 start).0
allocate_ids-counted_example =
    allocate_ids-counted memory_kvs memory-KeepsSequences memory_puts 70 start 64 (omega arith)
      start-IsReserved

abbrev alice : Bytes
alice = bytes "{}"

abbrev pub made : Bool × ℕ × World Memory
made = create_node memory_kvs stod 1 (bytes "P") alice start

made_ok : made.0 ≡ true
unfolding memory_kvs create_node allocate_id
made_ok = refl

get_node-create_node_example : get_node memory_kvs 1 made.1 made.2 ≡ some alice
get_node-create_node_example =
    get_node-create_node memory_kvs memory-IsKvs stod 1 start opened-HasTables (bytes "P") alice
      made_ok

fresh_id : (allocate_id memory_kvs start).0 ≡ 1
unfolding allocate_id
fresh_id = refl

get_node-create_node_ne_example : get_node memory_kvs 1 2 made.2 ≡ get_node memory_kvs 1 2 start
get_node-create_node_ne_example =
    get_node-create_node_ne memory_kvs memory-IsKvs stod 1 start opened-HasTables (bytes "P") alice
      2 (omega arith) (omega (arith, fresh_id)) (λ e. omega (arith, fresh_id, e))

abbrev knows : EdgeData
knows = record { from_id = 1; to_id = 2; label = bytes "KNOWS"; properties = bytes "{}" }

abbrev pub linked : Bool × ℕ × World Memory
linked = create_edge memory_kvs 1 knows start

linked_ok : linked.0 ≡ true
unfolding memory_kvs create_edge allocate_id
linked_ok = refl

get_edge-create_edge_example : get_edge memory_kvs 1 linked.1 linked.2 ≡ found knows
get_edge-create_edge_example =
    get_edge-create_edge memory_kvs memory-IsKvs 1 start opened-HasTables knows (omega arith)
      (omega arith) (omega arith) linked_ok

get_edge-create_edge_ne_example : get_edge memory_kvs 1 2 linked.2 ≡ get_edge memory_kvs 1 2 start
get_edge-create_edge_ne_example =
    get_edge-create_edge_ne memory_kvs memory-IsKvs 1 start opened-HasTables knows 2 (omega arith)
      (omega (arith, fresh_id)) (λ e. omega (arith, fresh_id, e))

linked_found : get_edge memory_kvs 1 1 linked.2 ≡ found knows
unfolding memory_kvs create_edge get_edge allocate_id index_edge eq_bytes to_key be_bytes
    decode_edge encode_edge le_bytes from_le from_key_ptr from_be
linked_found = refl

unlinked_ok : (delete_edge memory_kvs 1 1 linked.2).0 ≡ true
unfolding memory_kvs create_edge delete_edge get_edge allocate_id index_edge eq_bytes to_key
    be_bytes decode_edge encode_edge le_bytes from_le erase_edge
unlinked_ok = refl

get_edge-delete_edge_example :
    get_edge memory_kvs 1 1 (delete_edge memory_kvs 1 1 linked.2).1 ≡ rejected
get_edge-delete_edge_example =
    get_edge-delete_edge memory_kvs memory-IsKvs 1 linked.2 1 knows linked_found unlinked_ok

abbrev aged : Bytes
aged = bytes "{\"a\": 1}"

no_entry :
    Holds
      (memory_kvs.content_get start.db 6
        (build_prop_index_key stod (bytes "P") (bytes "a") (bytes "1")))
      []
unfolding memory_kvs pack_ids
no_entry = record { packed = refl; words = tt }

find-index_node_properties_example :
    find_nodes_by_property memory_kvs stod 1
      (bytes "P")
      (bytes "a")
      (bytes "1")
      (index_node_properties memory_kvs stod 1 7 (bytes "P") aged start).1
    ≡ some (
        []
        ++ hits stod
            (bytes "P")
            (build_prop_index_key stod (bytes "P") (bytes "a") (bytes "1"))
            7
            (parse_json_properties aged))
unfolding eq_bytes
find-index_node_properties_example =
    find-index_node_properties memory_kvs memory-IsKvs memory-IsReliable stod 1 start 7 (bytes "P")
      aged (bytes "a") (bytes "1") [] (omega arith) refl refl no_entry

abbrev a_key : Bytes
a_key = build_prop_index_key stod (bytes "P") (bytes "a") (bytes "1")

-- The entry of a node 7 with the property.
abbrev indexed : World Memory
indexed = record start {
  db = (memory_kvs.content_put start.db 6 a_key (pack_ids (7 ∷ [])) create).1;
}

one_entry : Holds (memory_kvs.content_get indexed.db 6 a_key) (7 ∷ [])
unfolding memory_kvs
one_entry = record {
  packed =
      ap stored_text
        (get-put_self memory_kvs memory-IsKvs start.db 6 a_key (pack_ids (7 ∷ [])) create refl);
  words = (omega arith, tt);
}

find-remove_property_index_example :
    find_nodes_by_property memory_kvs stod 1
      (bytes "P")
      (bytes "a")
      (bytes "1")
      (remove_property_index memory_kvs stod 1 7 (bytes "P") aged indexed).1
    ≡ some (
        left stod
          (bytes "P")
          (build_prop_index_key stod (bytes "P") (bytes "a") (bytes "1"))
          7
          (parse_json_properties aged)
          (7 ∷ []))
unfolding eq_bytes memory_kvs
find-remove_property_index_example =
    find-remove_property_index memory_kvs memory-IsKvs memory-IsReliable stod 1 indexed 7
      (bytes "P") aged (bytes "a") (bytes "1") (7 ∷ []) (omega arith) refl refl one_entry

label_ids_longer_example :
    (wrong : ℕ) × (label_ids (bytes "P") ((label_key (bytes "P" ++ 101 ∷ bytes "r") 7, []) ∷ [])
      ≡ wrong ∷ [])
    × (wrong ≢ 7)
label_ids_longer_example =
    label_ids_longer (bytes "P") 101 (bytes "r") 7 [] (omega arith) (omega arith)

-- A node 1 with the label.
abbrev listed : World Memory
listed = record start {
  db = (memory_kvs.content_put start.db 5 (label_key (bytes "P") 1) [] create).1;
}

listed_keys : LongKeys (bytes "P") (memory-ScansPrefixes.entries listed.db 5 (bytes "P"))
unfolding memory_kvs memory-ScansPrefixes keep has_prefix to_key be_bytes
listed_keys = (omega arith, tt)

drain-find_nodes_by_label_example :
    find_nodes_by_label memory_kvs 1 (bytes "P") listed
    ≡ some (
        drain
          (suc (length (memory-ScansPrefixes.entries listed.db 5 (bytes "P"))))
          (find_nodes_by_label_iter memory_kvs (bytes "P") listed))
unfolding eq_bytes
drain-find_nodes_by_label_example =
    drain-find_nodes_by_label memory_kvs memory-ScansPrefixes 1 (bytes "P") listed refl refl
      listed_keys

removed_ok : (delete_node memory_kvs 1 1 (bytes "P") listed).0 ≡ true
unfolding memory_kvs delete_node
removed_ok = refl

delete_node_stays_listed_example :
    entry_of (label_key (bytes "P") 1) (
      memory-ScansPrefixes.entries
        (delete_node memory_kvs 1 1 (bytes "P") listed).1.db
        5
        (bytes "P"))
    ≡ some []
unfolding eq_bytes
delete_node_stays_listed_example =
    delete_node_stays_listed memory_kvs memory-IsKvs memory-ScansPrefixes 1 1 (bytes "P") listed
      opened-HasTables memory-IsReliable refl removed_ok
