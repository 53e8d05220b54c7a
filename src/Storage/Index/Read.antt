-- ===== src/Storage/Index/Read.antt =====
-- The lookups in the property index: `find_nodes_by_property` and `find_nodes_by_property_range`.
use tsurugi_graph.Base.{
  ℕ, ◌-◌, ◌^◌, Bool, true, false, ◌&&◌, ◌||◌, not, Option, none, some, List, [], ◌∷◌, ◌++◌, Bytes,
  bytes, ◌==◌, if◌then◌else◌, ltb, leb, length, drop, has_prefix, eq_bytes, lt_bytes,
}
use tsurugi_graph.Keys.{
  prop_type_numeric, prop_type_string, encode_sortable_double, decode_sortable_double, double_lt,
}
use tsurugi_graph.Records.{unpack_ids}
use tsurugi_graph.Kvs.{Kvs, inclusive, exclusive, prefixed_inclusive}
use tsurugi_graph.Storage.State.{World, is_open}
use tsurugi_graph.Storage.Index.Key.{index_prefix, build_prop_index_key}

-- The comparisons of C++ on `double`, on bit patterns: NaN compares with nothing, and the two
-- zeros are equal.
abbrev pub is_nan : ℕ → Bool
is_nan a = ltb 0x7ff0000000000000 (if leb (2 ^ 63) a then a - 2 ^ 63 else a)

abbrev pub is_zero : ℕ → Bool
is_zero a = a == 0 || a == 2 ^ 63

abbrev pub double_eq : ℕ → ℕ → Bool
double_eq a b = not (is_nan a || is_nan b) && (a == b || (is_zero a && is_zero b))

abbrev pub double_less : ℕ → ℕ → Bool
double_less a b = not (is_nan a || is_nan b) && (double_lt a b && not (is_zero a && is_zero b))

-- The operators that the code tells apart by their text.
pub data Op : Type 0 where
  eq ne gt lt ge le other : Op

unfoldable pub op_of : Bytes → Op
op_of s =
    if eq_bytes s (bytes "=")
    then eq
    else if eq_bytes s (bytes "<>")
    then ne
    else if eq_bytes s (bytes ">")
    then gt
    else if eq_bytes s (bytes "<")
    then lt
    else if eq_bytes s (bytes ">=")
    then ge
    else if eq_bytes s (bytes "<=")
    then le
    else other

-- The ladder of comparisons on numbers; `=` and unknown operators match nothing.
unfoldable pub compare_double : Op → ℕ → ℕ → Bool
compare_double ne a b = not (double_eq a b)
compare_double gt a b = double_less b a
compare_double lt a b = double_less a b
compare_double ge a b = double_less b a || double_eq a b
compare_double le a b = double_less a b || double_eq a b
compare_double _ a b = false

unfoldable pub compare_text : Op → Bytes → Bytes → Bool
compare_text ne a b = not (eq_bytes a b)
compare_text gt a b = lt_bytes b a
compare_text lt a b = lt_bytes a b
compare_text ge a b = not (lt_bytes a b)
compare_text le a b = not (lt_bytes b a)
compare_text _ a b = false

-- The loop behind a range scan: every entry under the prefix counts.
unfoldable pub range_ids : Bytes → List (Bytes × Bytes) → List ℕ
range_ids prefix [] = []
range_ids prefix ((key, value) ∷ es) =
    let rest = unpack_ids value ++ range_ids prefix es in if has_prefix prefix key then rest else []

-- The test of the fallback on what follows the prefix of a key.
unfoldable pub entry_matches : Op → Option ℕ → Bytes → Bytes → Bool
unfolding compare_double compare_text
entry_matches op num text [] = false
entry_matches op num text (t ∷ enc) =
    if t == prop_type_numeric && leb 8 (length enc)
    then (elim num [ none ↦ false | some n ↦ compare_double op (decode_sortable_double enc) n ])
    else if t == prop_type_string
    then compare_text op enc text
    else false

unfoldable pub fallback_ids : Op → Option ℕ → Bytes → Bytes → List (Bytes × Bytes) → List ℕ
unfolding entry_matches
fallback_ids op num text prefix [] = []
fallback_ids op num text prefix ((key, value) ∷ es) =
    let rest = fallback_ids op num text prefix es in
    if not (has_prefix prefix key)
    then []
    else if entry_matches op num text (drop (length prefix) key)
    then unpack_ids value ++ rest
    else rest

abbrev starts_above : Op → Bool
starts_above gt = true
starts_above ge = true
starts_above _ = false

abbrev pub is_ne : Op → Bool
is_ne ne = true
is_ne _ = false

module _ {S : Type 0} (kvs : Kvs S) (stod : Bytes → Option ℕ) where
  -- A missing entry is an empty result, and no failure.
  unfoldable pub find_nodes_by_property : ℕ → Bytes → Bytes → Bytes → World S → Option (List ℕ)
  find_nodes_by_property tx label prop_key prop_value w =
      let h = w.store.property_index_handle in
      if is_open tx h
      then (elim (kvs.content_get w.db h (build_prop_index_key stod label prop_key prop_value)) [
        | none ↦ some []
        | some packed ↦ some (unpack_ids packed)
      ])
      else none

  -- The numeric range: from the threshold to the end of the numbers, or from their start to it.
  -- Every operator but `>` and `>=` takes the second way.
  unfoldable pub scan_range : Op → ℕ → Bytes → ℕ → S → Option (List (Bytes × Bytes))
  scan_range op h prefix num db =
      let at = prefix ++ prop_type_numeric ∷ encode_sortable_double num in
      let below = prefix ++ prop_type_numeric ∷ [] in
      let above = prefix ++ prop_type_string ∷ [] in
      elim op [
        | gt ↦ kvs.content_scan db h at exclusive above exclusive
        | ge ↦ kvs.content_scan db h at inclusive above exclusive
        | le ↦ kvs.content_scan db h below inclusive at inclusive
        | _ ↦ kvs.content_scan db h below inclusive at exclusive
      ]

  -- A scan that fails gives an empty result.
  unfoldable pub find_nodes_by_property_range :
      ℕ → Bytes → Bytes → Bytes → Bytes → World S → Option (List ℕ)
  unfolding scan_range range_ids fallback_ids op_of
  find_nodes_by_property_range tx label prop_key op_text compare_value w =
      let h = w.store.property_index_handle in
      let prefix = index_prefix label prop_key in
      let op = op_of op_text in
      let num = stod compare_value in
      let slow : List ℕ =
        elim (kvs.content_scan w.db h prefix prefixed_inclusive prefix prefixed_inclusive) [
          | none ↦ []
          | some es ↦ fallback_ids op num compare_value prefix es
        ] in
      let fast : ℕ → List ℕ =
        λ n. elim (scan_range op h prefix n w.db) [ none ↦ [] | some es ↦ range_ids prefix es ] in
      if not (is_open tx h) || eq_bytes label []
      then none
      else some (elim num [ none ↦ slow | some n ↦ if is_ne op then slow else fast n ])
