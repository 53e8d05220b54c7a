-- ===== src/Storage/Ids.antt =====
-- `allocate_id`: ids are handed out one by one, and reserved in the store's sequence 64 at a time.
use tsurugi_graph.Base.{
  ℕ, zero, suc, ◌+◌, ◌-◌, ◌*◌, ◌%◌, ◌^◌, ◌≤◌, ◌<◌, ◌≡◌, refl, Bool-cases, inl, inr, none, some,
  List, [], ◌∷◌, ap, ◌∙◌, true, arith, ◌==◌, if◌then◌else◌, All,
}
use tsurugi_graph.Kvs.{Kvs, KeepsSequences}
use tsurugi_graph.Storage.State.{World}

abbrev pub sequence_batch_size : ℕ
sequence_batch_size = 64

abbrev pub increment : ℕ → ℕ
increment x = (x + 1) % 2 ^ 64

-- `n` numbers from `first` on.
abbrev pub counted : ℕ → ℕ → List ℕ
counted zero first = []
counted (suc n) first = first ∷ counted n (suc first)

module _ {S : Type 0} (kvs : Kvs S) where
  -- A `sequence_put` that fails is only logged.
  unfoldable pub allocate_id : World S → ℕ × World S
  allocate_id w =
      let st = w.store in
      let id = st.next_id in
      let next = increment id in
      if st.sequence_batch_remaining == 0
      then (let version = increment st.sequence_version in
          let value = (next + sequence_batch_size + 2 ^ 64 - 2) % 2 ^ 64 in
          (
            id,
            record w {
              store = record st {
                next_id = next;
                sequence_version = version;
                sequence_batch_remaining = sequence_batch_size - 1;
              };
              db = (kvs.sequence_put w.db st.sequence_id version value).1;
            },
          ))
      else (
        id,
        record w {
          store = record st {
            next_id = next;
            sequence_batch_remaining = st.sequence_batch_remaining - 1;
          };
        },
      )

  -- The end of `init`: the version and the next id, from what the sequence of `sequence_id` holds.
  unfoldable pub recover_sequence : World S → World S
  recover_sequence w = elim (kvs.sequence_get w.db w.store.sequence_id) [
    | some (version, value) ↦ record w {
      store = record w.store { sequence_version = version; next_id = increment value };
    }
    | none ↦ record w { store = record w.store { sequence_version = 0; next_id = 1 } }
  ]

  -- Several ids, as the statements of a query take them.
  unfoldable pub allocate_ids : ℕ → World S → List ℕ × World S
  allocate_ids zero w = ([], w)
  allocate_ids (suc n) w =
      let (id, w1) = allocate_id w in let (ids, w2) = allocate_ids n w1 in (id ∷ ids, w2)

  -- The value of the sequence is the last id that is reserved: the ids up to it are handed out, or
  -- left in the batch.
  pub record IsReserved (w : World S) (value : ℕ) : Type 0 where
    pub version : ℕ
    pub stored : kvs.sequence_get w.db w.store.sequence_id ≡ some (version, value)
    pub reserved : w.store.next_id + w.store.sequence_batch_remaining ≡ value + 1
    pub small : value < 2 ^ 63

  -- No put of a sequence fails.
  module _ (laws : KeepsSequences kvs)
      (puts : (s : S) (id version value : ℕ) → (kvs.sequence_put s id version value).0 ≡ true) where
    -- The bound on `value` leaves room for one more batch below 2 ^ 63.
    allocate_id-IsReserved :
        (w : World S) (value : ℕ)
        → value + 64 < 2 ^ 63
        → IsReserved w value
        → (value' : ℕ) × (value ≤ value')
          × (value' ≤ value + 64)
          × IsReserved (allocate_id w).1 value'
          × ((allocate_id w).0 ≡ w.store.next_id)
          × ((allocate_id w).1.store.next_id ≡ suc w.store.next_id)
          × (w.store.next_id ≤ value')
    unfolding allocate_id
    allocate_id-IsReserved w value room h =
        elim (Bool-cases (w.store.sequence_batch_remaining == 0)) [
          | inl e ↦ (
            value + 64,
            omega arith,
            omega arith,
            rw e (record {
              version = (w.store.sequence_version + 1) % 2 ^ 64;
              stored =
                  laws.sequence_get_put w.db w.store.sequence_id _ _ (puts _ _ _ _)
                  ∙ ap (λ v. some ((w.store.sequence_version + 1) % 2 ^ 64, v)) (ground arith);
              reserved = ground arith;
              small = omega arith;
            }),
            ground arith,
            ground arith,
            ground arith,
          )
          | inr e ↦ (
            value,
            omega arith,
            omega arith,
            rw e (record {
              version = h.version;
              stored = h.stored;
              reserved = ground arith;
              small = h.small;
            }),
            ground arith,
            ground arith,
            ground arith,
          )
        ]

    allocate_ids-IsReserved :
        (n : ℕ) (w : World S) (value : ℕ)
        → value + 64 * n < 2 ^ 63
        → IsReserved w value
        → (value' : ℕ) × (value ≤ value')
          × IsReserved (allocate_ids n w).1 value'
          × ((allocate_ids n w).0 ≡ counted n w.store.next_id)
          × All (λ id. id ≤ value') (allocate_ids n w).0
    unfolding allocate_ids
    allocate_ids-IsReserved zero w value room h = (value, omega arith, h, refl, tt)
    allocate_ids-IsReserved (suc n) w value room h =
        let (v1, low, high, h1, first, next, below) =
          allocate_id-IsReserved w value (omega arith) h in
        let (v2, low', h2, rest, all) =
          allocate_ids-IsReserved n (allocate_id w).1 v1 (omega arith) h1 in
        (v2, omega arith, h2, cc, (omega arith, all))

    -- Where no put of a sequence fails, and the sequence holds the last id that is reserved and
    -- stays below 2 ^ 63, the ids of a run of allocations are consecutive, each is at most the
    -- value that the sequence holds afterwards, and that value is again the last id that is
    -- reserved.
    pub allocate_ids-counted :
        (n : ℕ) (w : World S) (value : ℕ)
        → value + 64 * n < 2 ^ 63
        → IsReserved w value
        → ((allocate_ids n w).0 ≡ counted n w.store.next_id)
          × (value' : ℕ) × IsReserved (allocate_ids n w).1 value'
          × All (λ id. id ≤ value') (allocate_ids n w).0
    allocate_ids-counted n w value room h =
        let (v2, low, h2, ids, all) = allocate_ids-IsReserved n w value room h in (ids, v2, h2, all)
