-- ===== src/Tests/Undefined.antt =====
-- Undefined behaviour of the storage layer and the executor, on a store in memory.
use tsurugi_graph.Base.{
  ◌≡◌, refl, true, false, none, [], ◌∷◌, Bytes, bytes, eq_bytes, has_prefix, keep,
}
use tsurugi_graph.Ast.{PatternNode, PatternRelationship, no_entries}
use tsurugi_graph.Keys.{to_key, be_bytes, from_be, from_key_ptr}
use tsurugi_graph.Kvs.{Memory, memory_kvs}
use tsurugi_graph.Records.{decode_edge, encode_edge, le_bytes, from_le}
use tsurugi_graph.Storage.State.{World}
use tsurugi_graph.Storage.Ids.{allocate_id}
use tsurugi_graph.Storage.Edges.{
  get_edge, reads_behind, index_edge, create_edge, delete_edge, edge_ids, scan_edges,
  get_outgoing_edges,
}
use tsurugi_graph.Executor.State.{Executor}
use tsurugi_graph.Executor.Hops.{
  edges_of, edge_target, follow_edges, follow_all, push_edges, bind_targets, any_reads_behind,
  follows_behind, follow_relationship,
}
use tsurugi_graph.Service.Reads.{edge_get}
use tsurugi_graph.Tests.Tables.{start, linked}
use tsurugi_graph.Tests.Values.{wide}

-- The edge 9 is the value of 40 bytes whose size wraps round.
abbrev wide_stored : World Memory
wide_stored = record start {
  db = record { tables = λ h. (to_key 9, wide) ∷ []; sequences = λ id. none };
}

-- A request for the edge, and a DELETE of it.
edge_get-wide : edge_get memory_kvs 1 none true 9 wide_stored ≡ none
unfolding edge_get get_edge memory_kvs decode_edge from_le eq_bytes to_key be_bytes
edge_get-wide = refl

delete_edge-wide : (delete_edge memory_kvs 1 9 wide_stored).1.undefined ≡ true
unfolding delete_edge get_edge memory_kvs decode_edge from_le eq_bytes to_key be_bytes
delete_edge-wide = refl

abbrev bound : Executor Memory
bound = record {
  world = linked.2;
  context = (bytes "a", 1 ∷ []) ∷ [];
  context_labels = [];
  unwind_context = [];
}

abbrev relationship : Bytes → PatternRelationship
relationship name = record {
  variable = name;
  type = [];
  direction = bytes "->";
  properties = no_entries;
}

abbrev next_node : PatternNode
next_node = record { variable = bytes "b"; label = []; properties = no_entries }

-- `MATCH (a)-[a]->(b)` pushes to the vector that it goes through, and `MATCH (a)-[r]->(b)` does not.
hop_to_itself :
    (follow_relationship memory_kvs 1
      (bytes "a")
      (relationship (bytes "a"))
      next_node
      (1 ∷ [])
      []
      bound).world.undefined
    ≡ true
unfolding follow_relationship follow_all follow_edges edge_target edges_of push_edges bind_targets
    any_reads_behind follows_behind reads_behind get_outgoing_edges scan_edges edge_ids memory_kvs
    has_prefix keep create_edge get_edge allocate_id index_edge eq_bytes to_key be_bytes decode_edge
    encode_edge le_bytes from_le from_key_ptr from_be
hop_to_itself = refl

hop_to_other :
    (follow_relationship memory_kvs 1
      (bytes "a")
      (relationship (bytes "r"))
      next_node
      (1 ∷ [])
      []
      bound).world.undefined
    ≡ false
unfolding follow_relationship follow_all follow_edges edge_target edges_of push_edges bind_targets
    any_reads_behind follows_behind reads_behind get_outgoing_edges scan_edges edge_ids memory_kvs
    has_prefix keep create_edge get_edge allocate_id index_edge eq_bytes to_key be_bytes decode_edge
    encode_edge le_bytes from_le from_key_ptr from_be
hop_to_other = refl
