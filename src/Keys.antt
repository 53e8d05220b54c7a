-- ===== src/Keys.antt =====
-- The keys of the store, graph-service/src/tateyama/framework/graph/storage.cpp lines 12 to 72:
-- node and edge ids as eight big-endian bytes, and doubles as eight bytes whose order as bytes is
-- their order as numbers. A `uint64_t` is a number below 2 ^ 64; a `double` is its 64-bit pattern,
-- since the code only copies and flips its bits.
mod Bytes
mod Order
mod Sortable
unfoldable pub use Bytes.{be_bytes, from_be, write_key, to_key, from_key_ptr, from_key}
pub use Bytes.{
  from_key_ptr-bound, length-be_bytes, length-to_key, from_key_ptr-to_key, from_key_ptr-append,
}
pub use Bytes.{from_key-to_key, to_key-injective, from_key_short}
pub use Order.{lt_bytes-be_bytes, lt_bytes-to_key, lt_bytes_prefix}
unfoldable pub use Sortable.{
  msb, flip_msb, complement, encode_sortable_double, decode_sortable_double,
}
pub use Sortable.{prop_type_numeric, prop_type_string, decode-encode, double_lt}
pub use Sortable.{length-encode_sortable_double, lt_bytes-encode_sortable_double}
