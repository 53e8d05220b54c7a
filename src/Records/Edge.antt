-- ===== src/Records/Edge.antt =====
-- The edge record: from(8) + to(8) + label_size(4) + label + properties. The size is copied with
-- the machine's byte order, the least significant byte first.
use tsurugi_graph.Base.{
  ℕ, zero, suc, ◌+◌, ◌*◌, ◌/◌, ◌%◌, ◌^◌, ◌≤◌, ◌<◌, ◌≡◌, refl, ap, ◌∙◌, [], ◌∷◌, ◌++◌, arith, Bytes,
  length, take, drop, ltb, leb, ◌-◌, ◌&&◌, ◌↔◌, if◌then◌else◌, length-append, take-append,
  drop-append, drop-append_add,
}
use native.Mathlib.Nat.{pow-suc}
use tsurugi_graph.Keys.{to_key, from_key_ptr, length-to_key, from_key_ptr-append}

pub record EdgeData : Type 0 where
  pub from_id : ℕ
  pub to_id : ℕ
  pub label : Bytes
  pub properties : Bytes

-- `out_of_bounds` is a read behind the end of the value, which the code does not exclude.
pub data EdgeRead : Type 0 where
  found : EdgeData → EdgeRead
  rejected out_of_bounds : EdgeRead

unfoldable pub le_bytes : ℕ → ℕ → Bytes
le_bytes zero v = []
le_bytes (suc n) v = (v % 256) ∷ le_bytes n (v / 256)

unfoldable pub from_le : Bytes → ℕ
from_le [] = 0
from_le (b ∷ bs) = b + 256 * from_le bs

-- `static_cast<uint32_t>(label.size())`
unfoldable pub label_size : Bytes → ℕ
label_size label = length label % 2 ^ 32

unfoldable pub encode_edge : EdgeData → Bytes
unfolding label_size
encode_edge e =
    to_key e.from_id
    ++ (to_key e.to_id ++ (le_bytes 4 (label_size e.label) ++ (e.label ++ e.properties)))

-- `20 + label_size` is computed in 32 bits, `ptr + 20 + label_size` in 64: `end` is the one and `from`
-- the other. The label is read from 20 to `from`, and the properties from there on, as many bytes as
-- the value has behind `end`; a read is within the value, or the whole is out of bounds.
unfoldable pub decode_edge : Bytes → EdgeRead
decode_edge value =
    let size = from_le (take 4 (drop 16 value)) in
    let end = (20 + size) % 2 ^ 32 in
    let from = 20 + size in
    let count = length value - end in
    if ltb (length value) 20
    then rejected
    else if ltb (length value) end
    then rejected
    else if leb from (length value) && leb (from + count) (length value)
    then found (record {
      from_id = from_key_ptr value;
      to_id = from_key_ptr (drop 8 value);
      label = take size (drop 20 value);
      properties = take count (drop from value);
    })
    else out_of_bounds

take_all : (xs : Bytes) → take (length xs) xs ≡ xs
take_all [] = refl
take_all (x ∷ xs) = ap (◌∷◌ x) (take_all xs)

length-le_bytes : (n v : ℕ) → length (le_bytes n v) ≡ n
unfolding le_bytes
length-le_bytes zero v = refl
length-le_bytes (suc n) v = ap suc (length-le_bytes n (v / 256))

from_le-le_bytes : (n v : ℕ) → v < 256 ^ n → from_le (le_bytes n v) ≡ v
unfolding le_bytes from_le
from_le-le_bytes zero v h = omega arith
from_le-le_bytes (suc n) v h =
    omega (arith, from_le-le_bytes n (v / 256) (omega (arith, pow-suc 256 n)))

module _ (e : EdgeData) where
  sized : Bytes
  sized = le_bytes 4 (label_size e.label)

  skip_ids : (m : ℕ) → drop (16 + m) (encode_edge e) ≡ drop m (sized ++ (e.label ++ e.properties))
  unfolding encode_edge sized
  skip_ids m =
      ap (λ k. drop k (encode_edge e)) (omega arith)
      ∙ drop-append_add (8 + m) 8 (to_key e.from_id) _ (length-to_key e.from_id)
      ∙ drop-append_add m 8 (to_key e.to_id) _ (length-to_key e.to_id)

  skip_size : (m : ℕ) → drop (20 + m) (encode_edge e) ≡ drop m (e.label ++ e.properties)
  unfolding sized
  skip_size m =
      ap (λ k. drop k (encode_edge e)) (omega arith)
      ∙ skip_ids (4 + m)
      ∙ drop-append_add m 4 sized _ (length-le_bytes 4 (label_size e.label))

  skip_from : drop 8 (encode_edge e) ≡ to_key e.to_id ++ (sized ++ (e.label ++ e.properties))
  unfolding encode_edge sized
  skip_from = drop-append 8 (to_key e.from_id) _ (length-to_key e.from_id)

  length-encode_edge : length (encode_edge e) ≡ 20 + length e.label + length e.properties
  unfolding encode_edge
  length-encode_edge =
      let sz = le_bytes 4 (label_size e.label) in
      omega (
        arith,
        length-append (to_key e.from_id) (to_key e.to_id ++ (sz ++ (e.label ++ e.properties))),
        length-append (to_key e.to_id) (sz ++ (e.label ++ e.properties)),
        length-append sz (e.label ++ e.properties),
        length-append e.label e.properties,
        length-le_bytes 4 (label_size e.label),
        length-to_key e.from_id,
        length-to_key e.to_id,
      )

  size_read : length e.label < 2 ^ 32 → from_le (take 4 (drop 16 (encode_edge e))) ≡ length e.label
  unfolding sized label_size
  size_read fits =
      ap (λ s. from_le (take 4 s)) (skip_ids 0)
      ∙ ap from_le (take-append 4 sized _ (length-le_bytes 4 (label_size e.label)))
      ∙ from_le-le_bytes 4 (label_size e.label) (omega arith)
      ∙ omega arith

  from_read : e.from_id < 2 ^ 64 → from_key_ptr (encode_edge e) ≡ e.from_id
  unfolding encode_edge
  from_read h = from_key_ptr-append e.from_id _ h

  to_read : e.to_id < 2 ^ 64 → from_key_ptr (drop 8 (encode_edge e)) ≡ e.to_id
  to_read h = rw skip_from (from_key_ptr-append e.to_id _ h)

  label_read : take (length e.label) (drop 20 (encode_edge e)) ≡ e.label
  label_read =
      ap (take (length e.label)) (skip_size 0)
      ∙ take-append (length e.label) e.label e.properties refl

  properties_read :
      take (length e.properties) (drop (20 + length e.label) (encode_edge e)) ≡ e.properties
  properties_read =
      ap (take (length e.properties))
        (skip_size (length e.label) ∙ drop-append (length e.label) e.label _ refl)
      ∙ take_all e.properties

  -- What `create_edge` writes `get_edge` reads back, for ends below 2 ^ 64 and a label that
  -- leaves room for the 32-bit size.
  pub decode_edge-encode_edge :
      e.from_id < 2 ^ 64
      → e.to_id < 2 ^ 64
      → length e.label + 20 < 2 ^ 32
      → decode_edge (encode_edge e) ≡ found e
  unfolding decode_edge
  decode_edge-encode_edge hf ht fits = ground (
    arith,
    size_read (omega arith),
    from_read hf,
    to_read ht,
    label_read,
    properties_read,
    length-encode_edge,
  )

-- A value of fewer than 20 bytes, such as the empty one that `delete_edge` writes, is no edge.
pub decode_edge_short : (value : Bytes) → length value < 20 → decode_edge value ≡ rejected
unfolding decode_edge
decode_edge_short value h = ground arith

-- Where the stored size is a 32-bit word, a value is read behind its end exactly if it has at least
-- 20 bytes and the size is within 20 of 2 ^ 32, whatever the length of the value: for every other
-- size that passes the check, both reads end within the value.
pub decode_edge_overflow :
    (value : Bytes)
    → from_le (take 4 (drop 16 value)) < 2 ^ 32
    → (decode_edge value ≡ out_of_bounds)
      ↔ ((20 ≤ length value) × (2 ^ 32 ≤ 20 + from_le (take 4 (drop 16 value))))
unfolding decode_edge
decode_edge_overflow value word = (λ e. (ground arith, ground arith), λ h. ground arith)
