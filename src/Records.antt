-- ===== src/Records.antt =====
-- The values of the store, graph-service/src/tateyama/framework/graph/storage.cpp: the edge record
-- that `create_edge` writes and `get_edge` reads, and the packed lists of ids of the property index.
mod Edge
mod Packed
pub use Edge.{EdgeData, EdgeRead, found, rejected, out_of_bounds}
unfoldable pub use Edge.{encode_edge, decode_edge, from_le, le_bytes, label_size}
pub use Edge.{decode_edge-encode_edge, decode_edge_overflow, decode_edge_short}
unfoldable pub use Packed.{pack_ids, unpack_ids, remove_packed_id, All64, without}
pub use Packed.{unpack_ids-pack_ids, remove_packed_id-pack_ids, pack_ids-append, unpack_ids-append}
