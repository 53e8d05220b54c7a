-- ===== src/Storage/Index/Write.antt =====
-- What changes the property index: `index_node_properties`, `remove_property_index` and the delta
-- of `update_node_with_label`. The failure of a write is only logged, or ignored.
use tsurugi_graph.Base.{
  ℕ, Bool, true, false, ◌||◌, not, Option, none, some, List, [], ◌∷◌, ◌++◌, Bytes, bytes,
  if◌then◌else◌, eq_bytes,
}
use tsurugi_graph.Keys.{to_key}
use tsurugi_graph.Records.{remove_packed_id}
use tsurugi_graph.Json.Parse.{parse_json_properties}
use tsurugi_graph.Kvs.{Kvs, create, create_or_update}
use tsurugi_graph.Storage.State.{Storage, World, is_open}
use tsurugi_graph.Storage.Index.Key.{build_prop_index_key}

-- `std::unordered_map(range)`: of two entries with one key the first stays. The order in which
-- such a map is iterated is not specified; here it is that of the entries.
abbrev pub value_of : Bytes → List (Bytes × Bytes) → Option Bytes
value_of k [] = none
value_of k ((j, v) ∷ es) = if eq_bytes j k then some v else value_of k es

abbrev is_some : Option Bytes → Bool
is_some none = false
is_some (some v) = true

unfoldable pub to_map : List (Bytes × Bytes) → List (Bytes × Bytes) → List (Bytes × Bytes)
to_map seen [] = []
to_map seen ((k, v) ∷ es) =
    let rest = to_map ((k, v) ∷ seen) es in
    if is_some (value_of k seen) then rest else (k, v) ∷ rest

-- `it == map.end() || it->second != value`
unfoldable pub differs : Bytes → Option Bytes → Bool
differs value none = true
differs value (some w) = not (eq_bytes w value)

-- `!properties.empty() && properties != "{}"`
unfoldable pub has_properties : Bytes → Bool
has_properties [] = false
has_properties (c ∷ s) = not (eq_bytes (c ∷ s) (bytes "{}"))

-- The entries of `es` whose key is missing in `others`, or has another value there.
unfoldable pub changed : List (Bytes × Bytes) → List (Bytes × Bytes) → List (Bytes × Bytes)
unfolding differs
changed others [] = []
changed others ((k, v) ∷ es) =
    let rest = changed others es in if differs v (value_of k others) then (k, v) ∷ rest else rest

-- `existing_str`: empty unless the read succeeds.
abbrev pub stored_text : Option Bytes → Bytes
stored_text none = []
stored_text (some packed) = packed

module _ {S : Type 0} (kvs : Kvs S) (stod : Bytes → Option ℕ) where
  -- One round of `index_node_properties`: CREATE first, and where the key exists read, append and
  -- write. The rounds of `update_node_with_label` that add an entry do the same.
  unfoldable pub add_entry : Storage → ℕ → Bytes → Bytes × Bytes → S → S
  add_entry st node_id label entry db =
      let key = build_prop_index_key stod label entry.0 entry.1 in
      let h = st.property_index_handle in
      let (ok, db1) = kvs.content_put db h key (to_key node_id) create in
      let existing = stored_text (kvs.content_get db1 h key) in
      if ok
      then db1
      else (kvs.content_put db1 h key (existing ++ to_key node_id) create_or_update).1

  unfoldable pub add_entries : Storage → ℕ → Bytes → List (Bytes × Bytes) → S → S
  add_entries st node_id label [] db = db
  add_entries st node_id label (e ∷ es) db =
      add_entries st node_id label es (add_entry st node_id label e db)

  unfoldable pub index_node_properties : ℕ → ℕ → Bytes → Bytes → World S → Bool × World S
  unfolding add_entries
  index_node_properties tx node_id label properties w =
      if not (is_open tx w.store.property_index_handle) || eq_bytes label [] then (false, w) else (
        true,
        record w { db = add_entries w.store node_id label (parse_json_properties properties) w.db },
      )

  -- One round of `remove_property_index`, and of the removals of `update_node_with_label`.
  unfoldable pub remove_entry : Storage → ℕ → Bytes → Bytes × Bytes → S → S
  remove_entry st node_id label entry db =
      let key = build_prop_index_key stod label entry.0 entry.1 in
      let h = st.property_index_handle in
      elim (kvs.content_get db h key) [
        | none ↦ db
        | some packed ↦
            (kvs.content_put db h key (remove_packed_id packed node_id) create_or_update).1
      ]

  unfoldable pub remove_entries : Storage → ℕ → Bytes → List (Bytes × Bytes) → S → S
  remove_entries st node_id label [] db = db
  remove_entries st node_id label (e ∷ es) db =
      remove_entries st node_id label es (remove_entry st node_id label e db)

  unfoldable pub remove_property_index : ℕ → ℕ → Bytes → Bytes → World S → Bool × World S
  unfolding remove_entries
  remove_property_index tx node_id label properties w =
      if not (is_open tx w.store.property_index_handle) || eq_bytes label [] then (false, w) else (
        true,
        record w {
          db = remove_entries w.store node_id label (parse_json_properties properties) w.db;
        },
      )

  -- The delta of `update_node_with_label`: first the removals, then the additions.
  unfoldable pub update_entries :
      Storage → ℕ → Bytes → List (Bytes × Bytes) → List (Bytes × Bytes) → S → S
  unfolding changed add_entries remove_entries to_map
  update_entries st node_id label old_props new_props db =
      let old_map = to_map [] old_props in
      let new_map = to_map [] new_props in
      add_entries st node_id label (changed old_map new_map)
        (remove_entries st node_id label (changed new_map old_map) db)
