-- ===== src/Storage/Index/Ranges.antt =====
-- The end points of a range scan, and the test that a scan is to make of a key.
use tsurugi_graph.Base.{
  ℕ, ◌<◌, ◌^◌, ◌≡◌, refl, ◌⊎◌, inl, inr, Bool, true, false, ◌&&◌, not, [], ◌∷◌, ◌++◌, arith, Bytes,
  ◌==◌, ltb, length, drop, Bool-cases, lt_bytes, has_prefix,
}
use tsurugi_graph.Keys.{
  prop_type_numeric, prop_type_string, encode_sortable_double, decode_sortable_double,
}
use tsurugi_graph.Kvs.{inclusive, exclusive, after_begin, before_end}
use tsurugi_graph.Storage.Index.Read.{Op, gt, lt, ge, le, is_nan, compare_double}

-- A key that does not begin with the prefix lies on one side of all that do.
abbrev pub Beside : Bytes → Bytes → Type 0
Beside p key =
    (below : Bool) × (has_prefix p key ≡ false)
    × ((c : ℕ) (t : Bytes)
        → (lt_bytes key (p ++ c ∷ t) ≡ below) × (lt_bytes (p ++ c ∷ t) key ≡ not below))

pub prefix_cases : (p key : Bytes) → ((rest : Bytes) × (key ≡ p ++ rest)) ⊎ Beside p key
unfolding has_prefix lt_bytes
prefix_cases [] key = inl (key, refl)
prefix_cases (c ∷ p) [] = inr (true, refl, λ d t. (refl, refl))
prefix_cases (c ∷ p) (d ∷ key) = elim (Bool-cases (c == d)) [
  | inr e ↦ inr (ltb d c, rw e refl, λ x t. (ground arith, ground arith))
  | inl e ↦ elim (prefix_cases p key) [
    | inl (rest, same) ↦ inl (rest, ground arith)
    | inr (below, none_there, sides) ↦
        inr (below, rw e none_there, λ x t. let (l, r) = sides x t in (ground arith, ground arith))
  ]
]

-- The operator whose numbers the scan goes through.
abbrev pub meant : Op → Op
meant gt = gt
meant ge = ge
meant le = le
meant _ = lt

-- The test of one key: the prefix, a number, and its comparison.
abbrev pub tail_matches : Op → ℕ → Bytes → Bool
tail_matches op num [] = false
tail_matches op num (t ∷ enc) =
    t == prop_type_numeric && compare_double op (decode_sortable_double enc) num

abbrev pub key_matches : Op → ℕ → Bytes → Bytes → Bool
key_matches op num prefix key =
    has_prefix prefix key && tail_matches op num (drop (length prefix) key)

-- What follows the type of a number is the encoding of one, which is not NaN.
abbrev pub IsIndexKey : Bytes → Bytes → Type 0
IsIndexKey prefix key =
    (has_prefix (prefix ++ prop_type_numeric ∷ []) key ≡ false)
    ⊎ ((x : ℕ) × (x < 2 ^ 64)
        × (is_nan x ≡ false)
        × (key ≡ prefix ++ prop_type_numeric ∷ encode_sortable_double x))

abbrev pub lies_within : Op → Bytes → ℕ → Bytes → Bool
lies_within op prefix num key =
    let at = prefix ++ prop_type_numeric ∷ encode_sortable_double num in
    let below = prefix ++ prop_type_numeric ∷ [] in
    let above = prefix ++ prop_type_string ∷ [] in
    elim op [
      | gt ↦ after_begin at exclusive key && before_end above exclusive key
      | ge ↦ after_begin at inclusive key && before_end above exclusive key
      | le ↦ after_begin below inclusive key && before_end at inclusive key
      | _ ↦ after_begin below inclusive key && before_end at exclusive key
    ]
