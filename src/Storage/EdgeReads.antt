-- ===== src/Storage/EdgeReads.antt =====
-- What `create_edge` and `delete_edge` leave to read.
use tsurugi_graph.Base.{
  ℕ, ◌+◌, ◌^◌, ◌<◌, ◌≡◌, ◌≢◌, refl, sym, ap, ◌∙◌, Bool, true, false, not, some, [], arith, Bytes,
  length, ◌==◌, if◌then◌else◌, eq_bytes, eq_bytes_iff,
}
use tsurugi_graph.Keys.{to_key, to_key-injective}
use tsurugi_graph.Records.{
  EdgeData, found, rejected, encode_edge, decode_edge-encode_edge, decode_edge_short,
}
use tsurugi_graph.Kvs.{Kvs, IsKvs, create, create_or_update}
use tsurugi_graph.Storage.State.{Storage, World, is_open}
use tsurugi_graph.Storage.Ids.{allocate_id}
use tsurugi_graph.Storage.Frame.{
  HasTables, SameHandles-allocate_id, get-put_ne, get-put_table, get-put_self, get-allocate_id,
}
use tsurugi_graph.Storage.Edges.{get_edge, index_edge, create_edge, erase_edge, delete_edge}

module _ {S : Type 0} (kvs : Kvs S) (laws : IsKvs kvs) where
  -- The index entries of an edge lie in other tables than the edge.
  get-index_edge :
      (st : Storage) (id : ℕ) (e : EdgeData) (db : S) (g : ℕ) (j : Bytes)
      → st.out_index_handle == g ≡ false
      → st.in_index_handle == g ≡ false
      → kvs.content_get (index_edge kvs st id e db) g j ≡ kvs.content_get db g j
  unfolding index_edge
  get-index_edge st id e db g j out into =
      get-put_table kvs laws _ _ _ (to_key e.from_id) create g j into
      ∙ get-put_table kvs laws db _ _ (to_key e.to_id) create g j out

  module _ (tx : ℕ) (w : World S) (tables : HasTables w.store) (e : EdgeData) where
    fresh : World S
    fresh = (allocate_id kvs w).1

    fresh_id : ℕ
    fresh_id = (allocate_id kvs w).0

    written : Bool × S
    written =
        kvs.content_put fresh.db fresh.store.edges_handle (to_key fresh_id) (encode_edge e) create

    indexed : World S
    indexed = record fresh { db = index_edge kvs fresh.store fresh_id e written.1 }

    failed : World S
    failed = record fresh { db = written.1 }

    create_edge-eq : create_edge kvs tx e w ≡ (
        if not (is_open tx w.store.edges_handle)
        then (false, 0, w)
        else if written.0
        then (true, fresh_id, indexed)
        else (false, fresh_id, failed))
    unfolding create_edge fresh fresh_id written indexed failed
    create_edge-eq = refl

    handle-indexed : indexed.store.edges_handle ≡ w.store.edges_handle
    unfolding indexed fresh
    handle-indexed = (SameHandles-allocate_id kvs w).edges

    handle-failed : failed.store.edges_handle ≡ w.store.edges_handle
    unfolding failed fresh
    handle-failed = (SameHandles-allocate_id kvs w).edges

    db-failed : failed.db ≡ written.1
    unfolding failed
    db-failed = refl

    get-indexed :
        (j : Bytes)
        → kvs.content_get indexed.db w.store.edges_handle j
          ≡ kvs.content_get written.1 w.store.edges_handle j
    unfolding indexed fresh
    get-indexed j =
        let same = SameHandles-allocate_id kvs w in
        get-index_edge _ fresh_id e written.1 w.store.edges_handle j
          (ap (λ h. h == w.store.edges_handle) same.out_index ∙ tables.out_edges)
          (ap (λ h. h == w.store.edges_handle) same.in_index ∙ tables.in_edges)

    get-written_self :
        written.0 ≡ true
        → kvs.content_get written.1 w.store.edges_handle (to_key fresh_id) ≡ some (encode_edge e)
    unfolding written fresh
    get-written_self ok =
        ap (λ h. kvs.content_get written.1 h (to_key fresh_id))
          (sym (SameHandles-allocate_id kvs w).edges)
        ∙ get-put_self kvs laws _ _ (to_key fresh_id) (encode_edge e) create ok

    get-written :
        (j : Bytes)
        → eq_bytes (to_key fresh_id) j ≡ false
        → kvs.content_get written.1 w.store.edges_handle j
          ≡ kvs.content_get w.db w.store.edges_handle j
    unfolding written fresh
    get-written j ne =
        get-put_ne kvs laws _ _ (to_key fresh_id) (encode_edge e) create _ j (ground arith)
        ∙ get-allocate_id kvs laws w w.store.edges_handle j

    -- Where the tables are there and `create_edge` returned true, the edge is read back with
    -- its ends, its label and its properties, for ends below 2 ^ 64 and a label that leaves
    -- room for the 32-bit size.
    pub get_edge-create_edge :
        e.from_id < 2 ^ 64
        → e.to_id < 2 ^ 64
        → length e.label + 20 < 2 ^ 32
        → (create_edge kvs tx e w).0 ≡ true
        → get_edge kvs tx (create_edge kvs tx e w).1 (create_edge kvs tx e w).2 ≡ found e
    unfolding get_edge
    get_edge-create_edge hf ht hl ok = ground (
      arith,
      create_edge-eq,
      handle-indexed,
      get-indexed (to_key fresh_id),
      get-written_self,
      decode_edge-encode_edge e hf ht hl,
    )

    -- Creating an edge, also where it fails, does not change what is read under another id
    -- than the new one, both below 2 ^ 64, where the tables are there.
    pub get_edge-create_edge_ne :
        (other : ℕ)
        → other < 2 ^ 64
        → (allocate_id kvs w).0 < 2 ^ 64
        → other ≢ (allocate_id kvs w).0
        → get_edge kvs tx other (create_edge kvs tx e w).2 ≡ get_edge kvs tx other w
    unfolding get_edge fresh_id
    get_edge-create_edge_ne other small small' ne =
        let key_ne : eq_bytes (to_key fresh_id) (to_key other) ≡ false = grind (
          arith,
          eq_bytes_iff (to_key fresh_id) (to_key other),
          to_key-injective fresh_id other small' small,
        ) in
        ground (
          arith,
          create_edge-eq,
          handle-indexed,
          handle-failed,
          db-failed,
          get-indexed (to_key other),
          get-written (to_key other) key_ne,
        )

  module _ (tx : ℕ) (w : World S) (id : ℕ) where
    erased : EdgeData → Bool × S
    erased e = erase_edge kvs w.store id e w.db

    delete_edge_found :
        (e : EdgeData)
        → get_edge kvs tx id w ≡ found e
        → delete_edge kvs tx id w ≡ ((erased e).0, record w { db = (erased e).1 })
    unfolding delete_edge erased
    delete_edge_found e here = rw (here, delete_edge) refl

    get-erased :
        (e : EdgeData)
        → (erased e).0 ≡ true
        → kvs.content_get (erased e).1 w.store.edges_handle (to_key id) ≡ some []
    unfolding erased erase_edge
    get-erased e ok = get-put_self kvs laws _ _ (to_key id) [] create_or_update ok

    -- Where an edge could be read and `delete_edge` returned true, it is no longer read: the
    -- empty value in its place is no edge.
    pub get_edge-delete_edge :
        (e : EdgeData)
        → get_edge kvs tx id w ≡ found e
        → (delete_edge kvs tx id w).0 ≡ true
        → get_edge kvs tx id (delete_edge kvs tx id w).1 ≡ rejected
    get_edge-delete_edge e here ok =
        let d = delete_edge_found e here in
        let wrote : (erased e).0 ≡ true = ap (λ (r : Bool × World S). r.0) (sym d) ∙ ok in
        rw d (
          unfold get_edge in ground (arith, get-erased e wrote, decode_edge_short [] (omega arith)))
