-- ===== src/Storage/Index/RangeScan.antt =====
-- `find_nodes_by_property_range` on a number, against a test of every entry of the table.
use tsurugi_graph.Base.{
  ℕ, ◌<◌, ◌^◌, ◌≡◌, refl, ap, ◌∙◌, inl, inr, Bool, true, false, some, List, [], ◌∷◌, ◌++◌, arith,
  Bytes, if◌then◌else◌, Bool-cases, eq_bytes, has_prefix, keep, All, All-map, Option, none,
}
use tsurugi_graph.Records.{unpack_ids}
use tsurugi_graph.Kvs.{Kvs, ScansRanges}
use tsurugi_graph.Storage.State.{World, is_open}
use tsurugi_graph.Storage.Index.Key.{index_prefix}
use tsurugi_graph.Storage.Index.Read.{
  Op, eq, ne, gt, lt, ge, le, other, op_of, is_ne, is_nan, is_zero, range_ids, scan_range,
  find_nodes_by_property_range,
}
use tsurugi_graph.Storage.Index.Ranges.{meant, key_matches, IsIndexKey, lies_within}
use tsurugi_graph.Storage.Index.RangeEnds.{lies_within-key_matches}

-- The ids of the entries whose keys pass the test.
abbrev pub matching_ids : Op → ℕ → Bytes → List (Bytes × Bytes) → List ℕ
matching_ids op num prefix [] = []
matching_ids op num prefix (e ∷ es) =
    if key_matches op num prefix e.0
    then unpack_ids e.1 ++ matching_ids op num prefix es
    else matching_ids op num prefix es

key_matches-has_prefix :
    (op : Op) (num : ℕ) (prefix key : Bytes)
    → key_matches op num prefix key ≡ true
    → has_prefix prefix key ≡ true
key_matches-has_prefix op num prefix key h = elim (Bool-cases (has_prefix prefix key)) [
  | inl p ↦ p
  | inr p ↦ absurd (ground arith)
]

range_ids-matching_ids :
    (op : Op) (num : ℕ) (prefix : Bytes) (within : Bytes → Bool) (es : List (Bytes × Bytes))
    → All (λ e. within e.0 ≡ key_matches op num prefix e.0) es
    → range_ids prefix (keep (λ e. within e.0) es) ≡ matching_ids op num prefix es
unfolding range_ids keep
range_ids-matching_ids op num prefix within [] h = refl
range_ids-matching_ids op num prefix within (e ∷ es) h =
    let rest = range_ids-matching_ids op num prefix within es h.1 in
    elim (Bool-cases (key_matches op num prefix e.0)) [
      | inl q ↦
          let p : has_prefix prefix e.0 ≡ true = key_matches-has_prefix op num prefix e.0 q in
          rw (h.0 ∙ q) (rw q (rw p (ap (λ ids. unpack_ids e.1 ++ ids) rest)))
      | inr q ↦ rw (h.0 ∙ q) (rw q rest)
    ]

module _ {S : Type 0} (kvs : Kvs S) (laws : ScansRanges kvs) where
  scan_range-lies_within :
      (stod : Bytes → Option ℕ) (op : Op) (h : ℕ) (prefix : Bytes) (num : ℕ) (db : S)
      → scan_range kvs stod op h prefix num db
        ≡ some (keep (λ e. lies_within op prefix num e.0) (laws.table db h))
  unfolding scan_range
  scan_range-lies_within stod gt h prefix num db = laws.ranged db h _ _ _ _
  scan_range-lies_within stod ge h prefix num db = laws.ranged db h _ _ _ _
  scan_range-lies_within stod le h prefix num db = laws.ranged db h _ _ _ _
  scan_range-lies_within stod lt h prefix num db = laws.ranged db h _ _ _ _
  scan_range-lies_within stod eq h prefix num db = laws.ranged db h _ _ _ _
  scan_range-lies_within stod ne h prefix num db = laws.ranged db h _ _ _ _
  scan_range-lies_within stod other h prefix num db = laws.ranged db h _ _ _ _

  -- Where a scan goes through the entries between its end points, on an open index and a label that
  -- is not empty: for a number that is neither NaN nor a zero, and every operator but `<>`, the
  -- range scan finds the ids of the entries under the label and key whose number compares with it,
  -- in the table's order; operators other than `>`, `>=` and `<=` count as `<`. The entries under
  -- the label and key have numbers other than NaN, or texts.
  pub find_nodes_by_property_range-matching_ids :
      (stod : Bytes → Option ℕ) (tx : ℕ) (label prop_key op_text compare_value : Bytes) (num : ℕ)
      (w : World S)
      → is_open tx w.store.property_index_handle ≡ true
      → eq_bytes label [] ≡ false
      → is_ne (op_of op_text) ≡ false
      → stod compare_value ≡ some num
      → num < 2 ^ 64
      → is_nan num ≡ false
      → is_zero num ≡ false
      → All
          (λ e. IsIndexKey (index_prefix label prop_key) e.0)
          (laws.table w.db w.store.property_index_handle)
      → find_nodes_by_property_range kvs stod tx label prop_key op_text compare_value w
        ≡ some (
            matching_ids
              (meant (op_of op_text))
              num
              (index_prefix label prop_key)
              (laws.table w.db w.store.property_index_handle))
  unfolding find_nodes_by_property_range
  find_nodes_by_property_range-matching_ids stod tx label prop_key op_text compare_value num w o l d
        e n h z keys =
      let prefix = index_prefix label prop_key in
      let op = op_of op_text in
      let entries = laws.table w.db w.store.property_index_handle in
      rw o (
        rw l (
          rw e (
            rw d (
              ap
                (λ (o : Option (List (Bytes × Bytes))).
                  some (elim o as (λ x. List ℕ) [ none ↦ [] | some es ↦ range_ids prefix es ]))
                (scan_range-lies_within stod op w.store.property_index_handle prefix num w.db)
              ∙ ap some (
                  range_ids-matching_ids (meant op) num prefix
                    (λ key. lies_within op prefix num key) entries
                    (All-map (λ e k. lies_within-key_matches op num prefix e.0 n h z k) entries
                      keys))))))
