-- ===== src/Storage/EntryWrites.antt =====
-- What adding a property to the index and removing one from it does to each entry.
use tsurugi_graph.Base.{
  ℕ, ◌^◌, ◌<◌, ◌≡◌, refl, sym, ap, ◌∙◌, inl, inr, Bool, true, false, Option, none, some, List, [],
  ◌∷◌, ◌++◌, append-nil, arith, keep, All-append, Bytes, if◌then◌else◌, Bool-cases, Option-cases,
  eq_bytes, eq_bytes_iff,
}
use mathlib.Core.Path.{subst}
use tsurugi_graph.Keys.{to_key}
use tsurugi_graph.Records.{pack_ids, without, remove_packed_id, remove_packed_id-pack_ids}
use tsurugi_graph.Kvs.{Kvs, IsKvs, IsReliable, create, create_or_update, same_key}
use tsurugi_graph.Storage.State.{Storage}
use tsurugi_graph.Storage.Frame.{get-put_ne, get-put_self}
use tsurugi_graph.Storage.Index.Key.{build_prop_index_key}
use tsurugi_graph.Storage.Index.Write.{
  stored_text, add_entry, add_entries, remove_entry, remove_entries,
}
use tsurugi_graph.Storage.EntryLists.{
  Holds, hits, left, pack_ids-snoc, append_if, no_ids, All64-without,
}

module _ {S : Type 0} (kvs : Kvs S) (laws : IsKvs kvs) (ok : IsReliable kvs)
    (stod : Bytes → Option ℕ) (st : Storage) (label : Bytes) (id : ℕ) (word : id < 2 ^ 64) where
  abbrev entry_at : Bytes → S → Option Bytes
  entry_at key db = kvs.content_get db st.property_index_handle key

  module _ (k v : Bytes) (db : S) where
    key : Bytes
    key = build_prop_index_key stod label k v

    first : Bool × S
    first = kvs.content_put db st.property_index_handle key (to_key id) create

    added : S
    added = add_entry kvs stod st id label (k, v) db

    second : Bytes → Bool × S
    second packed =
        kvs.content_put first.1 st.property_index_handle key (packed ++ to_key id) create_or_update

    -- The optimistic CREATE decides between the two ways.
    added-eq :
        added ≡ (if first.0 then first.1 else (second (stored_text (entry_at key first.1))).1)
    unfolding added add_entry first second key
    added-eq = refl

    entry-first : first.0 ≡ true → entry_at key first.1 ≡ some (to_key id)
    unfolding first
    entry-first = get-put_self kvs laws db _ key (to_key id) create

    entry-first_failed : first.0 ≡ false → entry_at key first.1 ≡ entry_at key db
    unfolding first
    entry-first_failed failed =
        laws.get_put_failed db _ key (to_key id) create failed st.property_index_handle key

    entry-second : (packed : Bytes) → entry_at key (second packed).1 ≡ some (packed ++ to_key id)
    unfolding second
    entry-second packed =
        get-put_self kvs laws first.1 _ key _ create_or_update
          (ok.update_ok first.1 st.property_index_handle key (packed ++ to_key id))

    first-absent : entry_at key db ≡ none → first.0 ≡ true
    unfolding first
    first-absent = ok.create_ok db st.property_index_handle key (to_key id)

    first-found : (packed : Bytes) → entry_at key db ≡ some packed → first.0 ≡ false
    unfolding first
    first-found packed = laws.create_exists db st.property_index_handle key (to_key id) packed

    -- Whichever way is taken, eight bytes are appended to the entry.
    add_entry_text : stored_text (entry_at key added) ≡ stored_text (entry_at key db) ++ to_key id
    add_entry_text = elim (Option-cases (entry_at key db)) [
      | inl absent ↦ ground (arith, added-eq, first-absent absent, entry-first)
      | inr (packed, found) ↦
          ground
            (arith, added-eq, first-found packed found, entry-first_failed, entry-second packed)
    ]

    add_entry_ne : (j : Bytes) → eq_bytes key j ≡ false → entry_at j added ≡ entry_at j db
    unfolding first second
    add_entry_ne j ne =
        let apart : same_key st.property_index_handle key st.property_index_handle j ≡ false =
          ground arith in
        let one = get-put_ne kvs laws db _ key (to_key id) create _ j apart in
        let two =
          get-put_ne kvs laws first.1 _ key (stored_text (entry_at key first.1) ++ to_key id)
            create_or_update _ j apart in
        ground (arith, added-eq, one, two)

    -- Indexing one property appends the id to the list at its key, and leaves the other lists.
    Holds-add_entry :
        (j : Bytes) (ids : List ℕ)
        → Holds (entry_at j db) ids
        → Holds (entry_at j added) (if eq_bytes key j then ids ++ id ∷ [] else ids)
    Holds-add_entry j ids h = elim (Bool-cases (eq_bytes key j)) [
      | inl same ↦
          let e : key ≡ j = (eq_bytes_iff key j).0 same in
          rw same (record {
            packed =
                subst
                  (λ x. stored_text (entry_at x added) ≡ stored_text (entry_at x db) ++ to_key id) e
                  add_entry_text
                ∙ rw h.packed (pack_ids-snoc ids id);
            words = All-append _ ids (id ∷ []) h.words (word, tt);
          })
      | inr ne ↦ rw ne (rw (add_entry_ne j ne) h)
    ]

    removed : S
    removed = remove_entry kvs stod st id label (k, v) db

    removed-absent : entry_at key db ≡ none → removed ≡ db
    unfolding removed key remove_entry
    removed-absent absent = rw (absent, remove_entry) refl

    rewritten : Bytes → Bool × S
    rewritten packed =
        kvs.content_put db st.property_index_handle key (remove_packed_id packed id)
          create_or_update

    removed-found :
        (packed : Bytes) → entry_at key db ≡ some packed → removed ≡ (rewritten packed).1
    unfolding removed key remove_entry rewritten
    removed-found packed found = rw (found, remove_entry) refl

    entry-rewritten :
        (packed : Bytes) → entry_at key (rewritten packed).1 ≡ some (remove_packed_id packed id)
    unfolding rewritten
    entry-rewritten packed =
        get-put_self kvs laws db _ key _ create_or_update
          (ok.update_ok db st.property_index_handle key (remove_packed_id packed id))

    remove_entry_ne : (j : Bytes) → eq_bytes key j ≡ false → entry_at j removed ≡ entry_at j db
    unfolding rewritten
    remove_entry_ne j ne = elim (Option-cases (entry_at key db)) [
      | inl absent ↦ ap (entry_at j) (removed-absent absent)
      | inr (packed, found) ↦
          ap (entry_at j) (removed-found packed found)
          ∙ get-put_ne kvs laws db _ key _ create_or_update _ j (ground arith)
    ]

    Holds-remove_self :
        (ids : List ℕ) → Holds (entry_at key db) ids → Holds (entry_at key removed) (without id ids)
    unfolding pack_ids without keep
    Holds-remove_self ids h = elim (Option-cases (entry_at key db)) [
      | inl absent ↦
          let empty : ids ≡ [] = no_ids ids h.words (sym h.packed ∙ ap stored_text absent) in
          rw empty (record {
            packed =
                ap (λ d. stored_text (entry_at key d)) (removed-absent absent)
                ∙ ap stored_text absent;
            words = tt;
          })
      | inr (packed, found) ↦
          let e : packed ≡ pack_ids ids = sym (ap stored_text found) ∙ h.packed in
          record {
            packed =
                ap (λ d. stored_text (entry_at key d)) (removed-found packed found)
                ∙ ap stored_text (entry-rewritten packed)
                ∙ ap (λ p. remove_packed_id p id) e
                ∙ remove_packed_id-pack_ids ids id h.words word;
            words = All64-without id ids h.words;
          }
    ]

    -- Removing one property takes every copy of the id from the list at its key, and leaves the
    -- other lists.
    Holds-remove_entry :
        (j : Bytes) (ids : List ℕ)
        → Holds (entry_at j db) ids
        → Holds (entry_at j removed) (if eq_bytes key j then without id ids else ids)
    Holds-remove_entry j ids h = elim (Bool-cases (eq_bytes key j)) [
      | inl same ↦
          let e : key ≡ j = (eq_bytes_iff key j).0 same in
          rw same (
            subst (λ x. Holds (entry_at x db) ids → Holds (entry_at x removed) (without id ids)) e
              (Holds-remove_self ids) h)
      | inr ne ↦ rw ne (rw (remove_entry_ne j ne) h)
    ]

  -- Indexing all properties appends the id once for each that has the key.
  pub Holds-add_entries :
      (es : List (Bytes × Bytes)) (db : S) (j : Bytes) (ids : List ℕ)
      → Holds (entry_at j db) ids
      → Holds (entry_at j (add_entries kvs stod st id label es db)) (ids ++ hits stod label j id es)
  unfolding add_entries hits key added
  Holds-add_entries [] db j ids h = rw append-nil h
  Holds-add_entries ((k, v) ∷ es) db j ids h =
      let step = Holds-add_entry k v db j ids h in
      let rest = Holds-add_entries es (add_entry kvs stod st id label (k, v) db) j _ step in
      subst (Holds (entry_at j (add_entries kvs stod st id label ((k, v) ∷ es) db)))
        (append_if (eq_bytes (build_prop_index_key stod label k v) j) ids id
          (hits stod label j id es))
        rest

  pub Holds-remove_entries :
      (es : List (Bytes × Bytes)) (db : S) (j : Bytes) (ids : List ℕ)
      → Holds (entry_at j db) ids
      → Holds (entry_at j (remove_entries kvs stod st id label es db)) (left stod label j id es ids)
  unfolding remove_entries left key removed
  Holds-remove_entries [] db j ids h = h
  Holds-remove_entries ((k, v) ∷ es) db j ids h =
      Holds-remove_entries es (remove_entry kvs stod st id label (k, v) db) j _
        (Holds-remove_entry k v db j ids h)
