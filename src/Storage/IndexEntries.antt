-- ===== src/Storage/IndexEntries.antt =====
-- The property index as a map from keys to lists of ids: what indexing a node adds to it, what
-- removing a node takes from it, and that `find_nodes_by_property` reads it.
use tsurugi_graph.Base.{
  ℕ, ◌^◌, ◌<◌, ◌≡◌, sym, ap, ◌∙◌, inl, inr, true, false, Option, some, List, [], ◌++◌, Bytes,
  Option-cases, eq_bytes,
}
use tsurugi_graph.Records.{unpack_ids, unpack_ids-pack_ids}
use tsurugi_graph.Json.Parse.{parse_json_properties}
use tsurugi_graph.Kvs.{Kvs, IsKvs, IsReliable}
use tsurugi_graph.Storage.State.{World, is_open}
use tsurugi_graph.Storage.Index.Key.{build_prop_index_key}
use tsurugi_graph.Storage.Index.Read.{find_nodes_by_property}
use tsurugi_graph.Storage.Index.Write.{
  stored_text, add_entries, remove_entries, index_node_properties, remove_property_index,
}
use tsurugi_graph.Storage.EntryLists.{Holds, hits, left, no_ids}
use tsurugi_graph.Storage.EntryWrites.{Holds-add_entries, Holds-remove_entries}

-- A lookup finds the ids that the entry at its key holds.
module _ {S : Type 0} (kvs : Kvs S) (stod : Bytes → Option ℕ) (tx : ℕ) where
  pub find-Holds :
      (label k v : Bytes) (ids : List ℕ) (w : World S)
      → is_open tx w.store.property_index_handle ≡ true
      → Holds
          (kvs.content_get w.db w.store.property_index_handle (build_prop_index_key stod label k v))
          ids
      → find_nodes_by_property kvs stod tx label k v w ≡ some ids
  unfolding find_nodes_by_property
  find-Holds label k v ids w opened h =
      elim (Option-cases (
        kvs.content_get w.db w.store.property_index_handle (build_prop_index_key stod label k v))) [
          | inl absent ↦
              rw (opened, find_nodes_by_property)
                (rw absent
                  (ap some (sym (no_ids ids h.words (sym h.packed ∙ ap stored_text absent)))))
          | inr (packed, found) ↦
              rw (opened, find_nodes_by_property)
                (rw found (
                  ap some (
                    ap unpack_ids (sym (ap stored_text found) ∙ h.packed)
                    ∙ unpack_ids-pack_ids ids h.words)))
        ]

module _ {S : Type 0} (kvs : Kvs S) (laws : IsKvs kvs) (ok : IsReliable kvs)
    (stod : Bytes → Option ℕ) (tx : ℕ) (w : World S) (id : ℕ) (label properties : Bytes) where
  -- Where no write fails but a CREATE on an existing key, for an id below 2 ^ 64, a label that
  -- is not empty and an index that is open: after a node is indexed, a lookup of a label, key
  -- and value finds the ids that its entry held before and then the node, once for each of its
  -- properties that has the same index key.
  pub find-index_node_properties :
      (k v : Bytes) (ids : List ℕ)
      → id < 2 ^ 64
      → is_open tx w.store.property_index_handle ≡ true
      → eq_bytes label [] ≡ false
      → Holds
          (kvs.content_get w.db w.store.property_index_handle (build_prop_index_key stod label k v))
          ids
      → find_nodes_by_property kvs stod tx label k v
          (index_node_properties kvs stod tx id label properties w).1
        ≡ some (
            ids
            ++ hits stod label
                (build_prop_index_key stod label k v)
                id
                (parse_json_properties properties))
  unfolding index_node_properties
  find-index_node_properties k v ids word opened labelled h =
      let es = parse_json_properties properties in
      let key = build_prop_index_key stod label k v in
      rw opened (
        rw labelled (
          find-Holds kvs stod tx label k v (ids ++ hits stod label key id es)
            (record w { db = add_entries kvs stod w.store id label es w.db }) opened
            (Holds-add_entries kvs laws ok stod w.store label id word es w.db key ids h)))

  -- Where no write fails but a CREATE on an existing key, for an id below 2 ^ 64, a label that
  -- is not empty and an index that is open: after a node's properties are removed, a lookup
  -- finds the ids that its entry held before, without the node where one of the properties has
  -- the same index key.
  pub find-remove_property_index :
      (k v : Bytes) (ids : List ℕ)
      → id < 2 ^ 64
      → is_open tx w.store.property_index_handle ≡ true
      → eq_bytes label [] ≡ false
      → Holds
          (kvs.content_get w.db w.store.property_index_handle (build_prop_index_key stod label k v))
          ids
      → find_nodes_by_property kvs stod tx label k v
          (remove_property_index kvs stod tx id label properties w).1
        ≡ some (
            left stod label
              (build_prop_index_key stod label k v)
              id
              (parse_json_properties properties)
              ids)
  unfolding remove_property_index
  find-remove_property_index k v ids word opened labelled h =
      let es = parse_json_properties properties in
      let key = build_prop_index_key stod label k v in
      rw opened (
        rw labelled (
          find-Holds kvs stod tx label k v (left stod label key id es ids)
            (record w { db = remove_entries kvs stod w.store id label es w.db }) opened
            (Holds-remove_entries kvs laws ok stod w.store label id word es w.db key ids h)))
