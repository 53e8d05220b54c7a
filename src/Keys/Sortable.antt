-- ===== src/Keys/Sortable.antt =====
-- ADR-0013: `encode_sortable_double` and `decode_sortable_double`, on the 64-bit patterns of IEEE 754
-- doubles. `bits & (1ULL << 63)` is the test `msb`, `bits ^ (1ULL << 63)` is `flip_msb`, and `~bits`
-- is `complement`.
use tsurugi_graph.Base.{
  ℕ, ◌+◌, ◌-◌, ◌^◌, ◌<◌, ◌≡◌, Bool, true, false, arith, Bytes, length, ltb, leb, if◌then◌else◌,
  lt_bytes, ◌∙◌,
}
use tsurugi_graph.Keys.Bytes.{to_key, from_key_ptr, length-to_key, from_key_ptr-to_key}
use tsurugi_graph.Keys.Order.{lt_bytes-to_key}

abbrev pub prop_type_numeric : ℕ
prop_type_numeric = 1

abbrev pub prop_type_string : ℕ
prop_type_string = 2

abbrev pub msb : ℕ → Bool
msb bits = leb (2 ^ 63) bits

abbrev pub flip_msb : ℕ → ℕ
flip_msb bits = if msb bits then bits - 2 ^ 63 else bits + 2 ^ 63

abbrev pub complement : ℕ → ℕ
complement bits = 2 ^ 64 - 1 - bits

unfoldable pub encode_sortable_double : ℕ → Bytes
encode_sortable_double bits = to_key (if msb bits then complement bits else flip_msb bits)

unfoldable pub decode_sortable_double : Bytes → ℕ
decode_sortable_double buf =
    let bits = from_key_ptr buf in if msb bits then flip_msb bits else complement bits

-- The order of doubles, read off their sign and magnitude: a negative number is less than any
-- other, of two negative ones that with the larger magnitude is less. It sets -0 below +0, and
-- leaves NaN out.
abbrev pub double_lt : ℕ → ℕ → Bool
double_lt a b =
    if msb a
    then (if msb b then ltb (b - 2 ^ 63) (a - 2 ^ 63) else true)
    else (if msb b then false else ltb a b)

pub length-encode_sortable_double : (bits : ℕ) → length (encode_sortable_double bits) ≡ 8
unfolding encode_sortable_double
length-encode_sortable_double bits = length-to_key _

encoded : ℕ → ℕ
encoded bits = if msb bits then complement bits else flip_msb bits

encoded-lt : (bits : ℕ) → bits < 2 ^ 64 → encoded bits < 2 ^ 64
unfolding encoded
encoded-lt bits h = ground arith

encoded_order : (a b : ℕ) → a < 2 ^ 64 → b < 2 ^ 64 → ltb (encoded a) (encoded b) ≡ double_lt a b
unfolding encoded
encoded_order a b ha hb = ground arith

-- Every 64-bit pattern is read back from its encoding.
pub decode-encode :
    (bits : ℕ) → bits < 2 ^ 64 → decode_sortable_double (encode_sortable_double bits) ≡ bits
unfolding encode_sortable_double decode_sortable_double encoded
decode-encode bits h = ground (arith, from_key_ptr-to_key (encoded bits) (encoded-lt bits h))

-- The encodings of two 64-bit patterns are ordered as bytes exactly as `double_lt` orders
-- them, by sign and magnitude, with -0 below 0.
pub lt_bytes-encode_sortable_double :
    (a b : ℕ)
    → a < 2 ^ 64
    → b < 2 ^ 64
    → lt_bytes (encode_sortable_double a) (encode_sortable_double b) ≡ double_lt a b
unfolding encode_sortable_double encoded
lt_bytes-encode_sortable_double a b ha hb =
    lt_bytes-to_key (encoded a) (encoded b) (encoded-lt a ha) (encoded-lt b hb)
    ∙ encoded_order a b ha hb
