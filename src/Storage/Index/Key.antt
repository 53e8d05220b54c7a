-- ===== src/Storage/Index/Key.antt =====
-- `build_prop_index_key`: label + '\0' + prop_key + '\0' + type_prefix + encoded value.
use tsurugi_graph.Base.{ℕ, Option, none, some, [], ◌∷◌, ◌++◌, Bytes}
use tsurugi_graph.Keys.{encode_sortable_double, prop_type_numeric, prop_type_string}

abbrev pub index_prefix : Bytes → Bytes → Bytes
index_prefix label prop_key = label ++ 0 ∷ (prop_key ++ 0 ∷ [])

module _ (stod : Bytes → Option ℕ) where
  -- `if (!prop_value.empty()) try { stod } catch (...) {}`
  abbrev pub numeric_value : Bytes → Option ℕ
  numeric_value [] = none
  numeric_value (c ∷ s) = stod (c ∷ s)

  -- The part of a key that stands for the value.
  unfoldable pub encode_value : Bytes → Bytes
  encode_value value = elim (numeric_value value) [
    | some num ↦ prop_type_numeric ∷ encode_sortable_double num
    | none ↦ prop_type_string ∷ value
  ]

  unfoldable pub build_prop_index_key : Bytes → Bytes → Bytes → Bytes
  unfolding encode_value
  build_prop_index_key label prop_key prop_value =
      index_prefix label prop_key ++ encode_value prop_value
