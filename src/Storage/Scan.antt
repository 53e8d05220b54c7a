-- ===== src/Storage/Scan.antt =====
-- The label scans: `find_nodes_by_label`, and `label_iterator` (ADR-0012).
use tsurugi_graph.Base.{
  ℕ, zero, suc, ◌+◌, Bool, true, false, ◌||◌, not, Option, none, some, List, [], ◌∷◌, Bytes,
  if◌then◌else◌, ltb, length, drop, has_prefix, eq_bytes,
}
use tsurugi_graph.Keys.{to_key, from_key_ptr}
use tsurugi_graph.Kvs.{Kvs, prefixed_inclusive}
use tsurugi_graph.Storage.State.{World, is_open}

-- The loop of `find_nodes_by_label`: a short key is passed over, a foreign prefix ends it.
unfoldable pub label_ids : Bytes → List (Bytes × Bytes) → List ℕ
label_ids label [] = []
label_ids label ((key, value) ∷ es) =
    let rest = label_ids label es in
    if ltb (length key) (length label + 8)
    then rest
    else if has_prefix label key
    then from_key_ptr (drop (length label) key) ∷ rest
    else []

-- A `label_iterator`: the entries that are ahead (`none` for a null handle), the current id, and
-- whether it is valid. Moving an iterator passes this state on.
pub record LabelIterator : Type 0 where
  pub ahead : Option (List (Bytes × Bytes))
  pub label : Bytes
  pub current_id : ℕ
  pub valid : Bool

-- `next` behind a successful `iterator_next`: here a short key ends the iteration too.
unfoldable pub step_iterator : LabelIterator → Bytes → List (Bytes × Bytes) → Bool × LabelIterator
step_iterator it key es =
    if ltb (length key) (length it.label + 8) || not (has_prefix it.label key)
    then (false, record it { ahead = some es; valid = false })
    else (
      true,
      record it {
        ahead = some es;
        current_id = from_key_ptr (drop (length it.label) key);
        valid = true;
      },
    )

unfoldable pub next_in : LabelIterator → Option (List (Bytes × Bytes)) → Bool × LabelIterator
unfolding step_iterator
next_in it none = (false, it)
next_in it (some []) = (false, record it { valid = false })
next_in it (some ((key, value) ∷ es)) = step_iterator it key es

abbrev pub next : LabelIterator → Bool × LabelIterator
next it = next_in it it.ahead

-- `while (iter.next()) ids.push_back(iter.node_id());`. Each call of `next` that returns true takes
-- one entry, so that one unit of fuel for each entry and one more are enough.
unfoldable pub drain : ℕ → LabelIterator → List ℕ
drain zero it = []
drain (suc fuel) it =
    let (more, it1) = next it in
    let rest = it1.current_id ∷ drain fuel it1 in if more then rest else []

module _ {S : Type 0} (kvs : Kvs S) where
  unfoldable pub find_nodes_by_label : ℕ → Bytes → World S → Option (List ℕ)
  unfolding label_ids
  find_nodes_by_label tx label w =
      let h = w.store.label_index_handle in
      if not (is_open tx h) || eq_bytes label []
      then none
      else (elim (kvs.content_scan w.db h label prefixed_inclusive label prefixed_inclusive) [
        | none ↦ none
        | some es ↦ some (label_ids label es)
      ])

  -- The constructor of `label_iterator`: a scan that fails leaves a null handle.
  unfoldable pub find_nodes_by_label_iter : Bytes → World S → LabelIterator
  find_nodes_by_label_iter label w = record {
    ahead =
        kvs.content_scan w.db w.store.label_index_handle label prefixed_inclusive label
          prefixed_inclusive;
    label = label;
    current_id = 0;
    valid = false;
  }

  -- The lazy read of the current node.
  unfoldable pub get_properties : LabelIterator → World S → Option Bytes
  get_properties it w =
      if it.valid then kvs.content_get w.db w.store.nodes_handle (to_key it.current_id) else none
