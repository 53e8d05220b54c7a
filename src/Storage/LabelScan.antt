-- ===== src/Storage/LabelScan.antt =====
-- The label scans: that the streaming iterator of ADR-0012 gives what `find_nodes_by_label` gives,
-- and what both give for labels that begin alike and for deleted nodes.
use tsurugi_graph.Base.{
  ℕ, suc, ◌+◌, ◌^◌, ◌≤◌, ◌<◌, ◌≡◌, ◌≢◌, refl, sym, ap, ◌∙◌, Bool, true, false, some, List, [], ◌∷◌,
  ◌++◌, append_assoc, arith, All, Bytes, length, length-append, drop, drop-append, eq_bytes,
  has_prefix, has_prefix-append,
}
use tsurugi_graph.Keys.{
  to_key, from_key_ptr, from_key_ptr-to_key, length-to_key, from_key_ptr-bound,
}
use tsurugi_graph.Kvs.{Kvs, IsKvs, IsReliable, ScansPrefixes, entry_of, create_or_update}
use tsurugi_graph.Storage.State.{World, is_open}
use tsurugi_graph.Storage.Frame.{HasTables, get-put_table, get-put_self}
use tsurugi_graph.Storage.Nodes.{label_key, delete_node}
use tsurugi_graph.Storage.Scan.{
  next_in, drain, label_ids, find_nodes_by_label, find_nodes_by_label_iter,
}

-- Every key is at least as long as the label and an id.
abbrev pub LongKeys : Bytes → List (Bytes × Bytes) → Type 0
LongKeys label = All (λ e. length label + 8 ≤ length e.0)

abbrev pub Prefixed : Bytes → List (Bytes × Bytes) → Type 0
Prefixed label = All (λ e. has_prefix label e.0 ≡ true)

drain-label_ids :
    (label : Bytes) (es : List (Bytes × Bytes)) (current : ℕ) (valid : Bool)
    → LongKeys label es
    → Prefixed label es
    → drain
        (suc (length es))
        (record { ahead = some es; label = label; current_id = current; valid = valid })
      ≡ label_ids label es
unfolding drain label_ids next_in
drain-label_ids label [] current valid long pre = refl
drain-label_ids label ((key, v) ∷ es) current valid long pre = ground (
  arith,
  long.0,
  pre.0,
  drain-label_ids label es (from_key_ptr (drop (length label) key)) true long.1 pre.1,
)

module _ {S : Type 0} (kvs : Kvs S) (scans : ScansPrefixes kvs) where
  -- The ids that the streaming iterator goes through are those that `find_nodes_by_label`
  -- returns, in the same order, where the label is not empty, the index is open and no key
  -- under the label is too short for an id.
  pub drain-find_nodes_by_label :
      (tx : ℕ) (label : Bytes) (w : World S)
      → is_open tx w.store.label_index_handle ≡ true
      → eq_bytes label [] ≡ false
      → LongKeys label (scans.entries w.db w.store.label_index_handle label)
      → find_nodes_by_label kvs tx label w
        ≡ some (
            drain
              (suc (length (scans.entries w.db w.store.label_index_handle label)))
              (find_nodes_by_label_iter kvs label w))
  unfolding find_nodes_by_label find_nodes_by_label_iter
  drain-find_nodes_by_label tx label w opened named long =
      let h = w.store.label_index_handle in
      rw (opened, find_nodes_by_label)
        (rw named (
          rw (scans.scanned w.db h label) (
            ap some (
              sym (
                drain-label_ids label (scans.entries w.db h label) 0 false long
                  (scans.prefixed w.db h label))))))

-- The entry of a node under a label is read as the node's id.
label_ids_own :
    (label : Bytes) (id : ℕ) (v : Bytes)
    → id < 2 ^ 64
    → label_ids label ((label_key label id, v) ∷ []) ≡ id ∷ []
unfolding label_ids
label_ids_own label id v word = ground (
  arith,
  length-append label (to_key id),
  length-to_key id,
  has_prefix-append label (to_key id),
  drop-append (length label) label (to_key id) refl,
  from_key_ptr-to_key id word,
)

-- The scan of a label also meets the entry of a node under a longer label that begins with it,
-- and reads a wrong id from its key, where the next byte of the longer label is not 0 and the
-- id is below 2 ^ 56.
pub label_ids_longer :
    (label : Bytes) (x : ℕ) (more : Bytes) (id : ℕ) (v : Bytes)
    → 0 < x
    → id < 2 ^ 56
    → (wrong : ℕ) × (label_ids label ((label_key (label ++ x ∷ more) id, v) ∷ []) ≡ wrong ∷ [])
      × (wrong ≢ id)
unfolding label_ids
label_ids_longer label x more id v pos small =
    let rest = (x ∷ more) ++ to_key id in
    let long : 8 ≤ length (more ++ to_key id) =
      omega (arith, length-append more (to_key id), length-to_key id) in
    (
      from_key_ptr rest,
      rw append_assoc (
          ground (
            arith,
            length-append label rest,
            long,
            has_prefix-append label rest,
            drop-append (length label) label rest refl,
          )),
      λ e. omega (arith, from_key_ptr-bound x (more ++ to_key id) (omega arith)),
    )

module _ {S : Type 0} (kvs : Kvs S) (laws : IsKvs kvs) (scans : ScansPrefixes kvs) where
  -- `delete_node` does not take the node out of the label index: right after it returned true,
  -- for a label that is not empty and where no update of the store fails, the scan of the
  -- label still goes through the node's entry.
  pub delete_node_stays_listed :
      (tx : ℕ) (id : ℕ) (label : Bytes) (w : World S)
      → HasTables w.store
      → IsReliable kvs
      → eq_bytes label [] ≡ false
      → (delete_node kvs tx id label w).0 ≡ true
      → entry_of
          (label_key label id)
          (scans.entries (delete_node kvs tx id label w).1.db w.store.label_index_handle label)
        ≡ some []
  unfolding delete_node
  delete_node_stays_listed tx id label w tables ok named done =
      let h = w.store.label_index_handle in
      let unlisted = kvs.content_put w.db h (label_key label id) [] create_or_update in
      let self =
        get-put_self kvs laws w.db h (label_key label id) [] create_or_update
          (ok.update_ok w.db h (label_key label id) []) in
      let kept =
        get-put_table kvs laws unlisted.1 w.store.nodes_handle (to_key id) [] create_or_update h
          (label_key label id) (ground (arith, tables.label_nodes)) in
      scans.complete _ h label (label_key label id) (has_prefix-append label (to_key id))
      ∙ ground arith
