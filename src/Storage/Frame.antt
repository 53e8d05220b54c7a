-- ===== src/Storage/Frame.antt =====
-- What the store promises, in the form in which the proofs on the storage layer use it.
use tsurugi_graph.Base.{
  ℕ, ◌≡◌, refl, ◌∙◌, inl, inr, true, false, some, arith, Bytes, ◌==◌, Bool-cases, eq_bytes_refl,
}
use tsurugi_graph.Kvs.{Kvs, IsKvs, PutOperation, same_key}
use tsurugi_graph.Storage.State.{Storage, World}
use tsurugi_graph.Storage.Ids.{allocate_id}

-- The six tables of an initialised object are there, and no two of them are the same.
pub record HasTables (st : Storage) : Type 0 where
  pub nodes_open : st.nodes_handle == 0 ≡ false
  pub edges_open : st.edges_handle == 0 ≡ false
  pub out_open : st.out_index_handle == 0 ≡ false
  pub in_open : st.in_index_handle == 0 ≡ false
  pub label_open : st.label_index_handle == 0 ≡ false
  pub property_open : st.property_index_handle == 0 ≡ false
  pub label_nodes : st.label_index_handle == st.nodes_handle ≡ false
  pub property_nodes : st.property_index_handle == st.nodes_handle ≡ false
  pub property_label : st.property_index_handle == st.label_index_handle ≡ false
  pub out_edges : st.out_index_handle == st.edges_handle ≡ false
  pub in_edges : st.in_index_handle == st.edges_handle ≡ false
  pub in_out : st.in_index_handle == st.out_index_handle ≡ false
  pub label_edges : st.label_index_handle == st.edges_handle ≡ false
  pub property_edges : st.property_index_handle == st.edges_handle ≡ false
  pub property_out : st.property_index_handle == st.out_index_handle ≡ false
  pub property_in : st.property_index_handle == st.in_index_handle ≡ false
  pub nodes_edges : st.nodes_handle == st.edges_handle ≡ false

module _ {S : Type 0} (kvs : Kvs S) (laws : IsKvs kvs) where
  -- A write changes no other key, whether it succeeds or not.
  pub get-put_ne :
      (s : S) (h : ℕ) (k v : Bytes) (op : PutOperation) (g : ℕ) (j : Bytes)
      → same_key h k g j ≡ false
      → kvs.content_get (kvs.content_put s h k v op).1 g j ≡ kvs.content_get s g j
  get-put_ne s h k v op g j ne = elim (Bool-cases (kvs.content_put s h k v op).0) [
    | inl ok ↦ laws.get_put s h k v op ok g j ∙ rw ne refl
    | inr failed ↦ laws.get_put_failed s h k v op failed g j
  ]

  pub get-put_table :
      (s : S) (h : ℕ) (k v : Bytes) (op : PutOperation) (g : ℕ) (j : Bytes)
      → h == g ≡ false
      → kvs.content_get (kvs.content_put s h k v op).1 g j ≡ kvs.content_get s g j
  get-put_table s h k v op g j ne = get-put_ne s h k v op g j (ground arith)

  pub get-put_self :
      (s : S) (h : ℕ) (k v : Bytes) (op : PutOperation)
      → (kvs.content_put s h k v op).0 ≡ true
      → kvs.content_get (kvs.content_put s h k v op).1 h k ≡ some v
  get-put_self s h k v op ok = laws.get_put s h k v op ok h k ∙ ground (arith, eq_bytes_refl k)

  -- Allocating an id touches no table.
  pub get-allocate_id :
      (w : World S) (g : ℕ) (j : Bytes)
      → kvs.content_get (allocate_id kvs w).1.db g j ≡ kvs.content_get w.db g j
  unfolding allocate_id
  get-allocate_id w g j = elim (Bool-cases (w.store.sequence_batch_remaining == 0)) [
    | inl e ↦ rw e (laws.get_sequence_put w.db w.store.sequence_id _ _ g j)
    | inr e ↦ rw e refl
  ]

-- Nor does it change a handle.
pub record SameHandles (st st' : Storage) : Type 0 where
  pub nodes : st.nodes_handle ≡ st'.nodes_handle
  pub edges : st.edges_handle ≡ st'.edges_handle
  pub out_index : st.out_index_handle ≡ st'.out_index_handle
  pub in_index : st.in_index_handle ≡ st'.in_index_handle
  pub label_index : st.label_index_handle ≡ st'.label_index_handle
  pub property_index : st.property_index_handle ≡ st'.property_index_handle

module _ {S : Type 0} (kvs : Kvs S) where
  pub SameHandles-allocate_id : (w : World S) → SameHandles (allocate_id kvs w).1.store w.store
  unfolding allocate_id
  SameHandles-allocate_id w = record {
    nodes = ground arith;
    edges = ground arith;
    out_index = ground arith;
    in_index = ground arith;
    label_index = ground arith;
    property_index = ground arith;
  }
