-- ===== src/Records/Packed.antt =====
-- `remove_packed_id` and `unpack_ids`, on the packed ids of the property index: eight big-endian
-- bytes each. `for (i = 0; i + 8 <= size; i += 8)` makes `size / 8` rounds.
use tsurugi_graph.Base.{
  ℕ, zero, suc, ◌*◌, ◌/◌, ◌^◌, ◌<◌, ◌≡◌, refl, sym, ap, ◌∙◌, List, [], ◌∷◌, ◌++◌, arith, Bytes,
  length, take, drop, All, ◌==◌, not, keep, if◌then◌else◌, length-append, take-append, drop-append,
  append_assoc, append-nil, eq_bytes, eq_bytes_iff, All-append,
}
use mathlib.Core.Path.{ap₂}
use tsurugi_graph.Keys.{to_key, from_key_ptr, length-to_key, from_key_ptr-append, to_key-injective}

remove_rounds : ℕ → Bytes → Bytes → Bytes
remove_rounds zero target s = []
remove_rounds (suc n) target s =
    let rest = remove_rounds n target (drop 8 s) in
    if eq_bytes (take 8 s) target then rest else take 8 s ++ rest

unfoldable pub remove_packed_id : Bytes → ℕ → Bytes
unfolding remove_rounds
remove_packed_id existing node_id = remove_rounds (length existing / 8) (to_key node_id) existing

unpack_rounds : ℕ → Bytes → List ℕ
unpack_rounds zero s = []
unpack_rounds (suc n) s = from_key_ptr s ∷ unpack_rounds n (drop 8 s)

unfoldable pub unpack_ids : Bytes → List ℕ
unfolding unpack_rounds
unpack_ids packed = unpack_rounds (length packed / 8) packed

-- The packed form of a list of ids.
unfoldable pub pack_ids : List ℕ → Bytes
pack_ids [] = []
pack_ids (id ∷ ids) = to_key id ++ pack_ids ids

abbrev pub All64 : List ℕ → Type 0
All64 = All (λ id. id < 2 ^ 64)

unfoldable pub without : ℕ → List ℕ → List ℕ
without id = keep (λ x. not (x == id))

length-pack_ids : (ids : List ℕ) → length (pack_ids ids) ≡ 8 * length ids
unfolding pack_ids
length-pack_ids [] = omega arith
length-pack_ids (id ∷ ids) =
    omega (arith, length-append (to_key id) (pack_ids ids), length-to_key id, length-pack_ids ids)

rounds-pack_ids : (ids : List ℕ) → length (pack_ids ids) / 8 ≡ length ids
rounds-pack_ids ids = omega (arith, length-pack_ids ids)

pub pack_ids-append : (xs ys : List ℕ) → pack_ids (xs ++ ys) ≡ pack_ids xs ++ pack_ids ys
unfolding pack_ids
pack_ids-append [] ys = refl
pack_ids-append (x ∷ xs) ys = rw (pack_ids-append xs ys) (sym (append_assoc (to_key x) _ _))

unpack_rounds-pack_ids :
    (ids : List ℕ) → All64 ids → unpack_rounds (length ids) (pack_ids ids) ≡ ids
unfolding pack_ids unpack_rounds
unpack_rounds-pack_ids [] h = refl
unpack_rounds-pack_ids (id ∷ ids) h = ap₂ ◌∷◌ (from_key_ptr-append id (pack_ids ids) h.0) (
    ap (unpack_rounds (length ids)) (drop-append 8 (to_key id) _ (length-to_key id))
    ∙ unpack_rounds-pack_ids ids h.1)

-- A packed list of ids below 2 ^ 64 is read back whole and in order.
pub unpack_ids-pack_ids : (ids : List ℕ) → All64 ids → unpack_ids (pack_ids ids) ≡ ids
unfolding unpack_ids
unpack_ids-pack_ids ids h = rw rounds-pack_ids (unpack_rounds-pack_ids ids h)

pack_ids_one : (id : ℕ) → pack_ids (id ∷ []) ≡ to_key id
unfolding pack_ids
pack_ids_one id = append-nil (to_key id)

-- Appending the eight bytes of an id to a packed list appends the id, for ids below 2 ^ 64.
pub unpack_ids-append :
    (ids : List ℕ) (id : ℕ)
    → All64 ids
    → id < 2 ^ 64
    → unpack_ids (pack_ids ids ++ to_key id) ≡ ids ++ id ∷ []
unpack_ids-append ids id h hid =
    ap unpack_ids
      (ap (◌++◌ (pack_ids ids)) (sym (pack_ids_one id)) ∙ sym (pack_ids-append ids (id ∷ [])))
    ∙ unpack_ids-pack_ids (ids ++ id ∷ []) (All-append _ ids (id ∷ []) h (hid, tt))

eq_bytes-to_key : (a b : ℕ) → a < 2 ^ 64 → b < 2 ^ 64 → eq_bytes (to_key a) (to_key b) ≡ (a == b)
eq_bytes-to_key a b ha hb =
    grind (arith, eq_bytes_iff (to_key a) (to_key b), to_key-injective a b ha hb)

remove_rounds-pack_ids :
    (ids : List ℕ) (id : ℕ)
    → All64 ids
    → id < 2 ^ 64
    → remove_rounds (length ids) (to_key id) (pack_ids ids) ≡ pack_ids (without id ids)
unfolding pack_ids remove_rounds without keep
remove_rounds-pack_ids [] id h hid = refl
remove_rounds-pack_ids (x ∷ xs) id h hid = ground (
  arith,
  take-append 8 (to_key x) (pack_ids xs) (length-to_key x),
  drop-append 8 (to_key x) (pack_ids xs) (length-to_key x),
  eq_bytes-to_key x id h.0 hid,
  remove_rounds-pack_ids xs id h.1 hid,
)

-- Removing an id from a packed list removes every copy of it and leaves the others, in order,
-- for ids below 2 ^ 64.
pub remove_packed_id-pack_ids :
    (ids : List ℕ) (id : ℕ)
    → All64 ids
    → id < 2 ^ 64
    → remove_packed_id (pack_ids ids) id ≡ pack_ids (without id ids)
unfolding remove_packed_id
remove_packed_id-pack_ids ids id h hid = rw rounds-pack_ids (remove_rounds-pack_ids ids id h hid)
