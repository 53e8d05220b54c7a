-- ===== src/Tests/Ranges.antt =====
-- A range scan over three entries: the numbers 1.0 and 2.0, and a text.
use tsurugi_graph.Base.{
  ℕ, ◌*◌, ◌^◌, ◌≡◌, refl, inl, inr, some, none, List, [], ◌∷◌, ◌++◌, arith, Bytes, bytes, All,
  has_prefix, eq_bytes,
}
use tsurugi_graph.Keys.{to_key, encode_sortable_double}
use tsurugi_graph.Kvs.{Memory, memory_kvs, memory-ScansRanges}
use tsurugi_graph.Storage.State.{World}
use tsurugi_graph.Storage.Index.Key.{index_prefix}
use tsurugi_graph.Storage.Index.Read.{op_of, find_nodes_by_property_range}
use tsurugi_graph.Storage.Index.Ranges.{meant, IsIndexKey}
use tsurugi_graph.Storage.Index.RangeScan.{matching_ids, find_nodes_by_property_range-matching_ids}
use tsurugi_graph.Tests.Tables.{start, stod}

abbrev prefix : Bytes
prefix = index_prefix (bytes "P") (bytes "a")

abbrev one_bits : ℕ
one_bits = 1023 * 2 ^ 52

abbrev two_bits : ℕ
two_bits = 1024 * 2 ^ 52

abbrev entries : List (Bytes × Bytes)
entries =
    (prefix ++ 1 ∷ encode_sortable_double one_bits, to_key 7)
    ∷ (prefix ++ 1 ∷ encode_sortable_double two_bits, to_key 8)
    ∷ (prefix ++ 2 ∷ bytes "x", to_key 9)
    ∷ []

abbrev indexed : World Memory
indexed = record start { db = record { tables = λ h. entries; sequences = λ id. none } }

entries_are_keys : All (λ e. IsIndexKey prefix e.0) entries
unfolding has_prefix
entries_are_keys = (
  inr (one_bits, omega arith, refl, refl),
  (inr (two_bits, omega arith, refl, refl), (inl refl, tt)),
)

find_nodes_by_property_range-matching_ids_example :
    find_nodes_by_property_range memory_kvs stod 1
      (bytes "P")
      (bytes "a")
      (bytes ">=")
      (bytes "1")
      indexed
    ≡ some (matching_ids (meant (op_of (bytes ">="))) one_bits prefix entries)
unfolding memory-ScansRanges eq_bytes op_of
find_nodes_by_property_range-matching_ids_example =
    find_nodes_by_property_range-matching_ids memory_kvs memory-ScansRanges stod 1 (bytes "P")
      (bytes "a") (bytes ">=") (bytes "1") one_bits indexed refl refl refl refl (omega arith) refl
      refl entries_are_keys
