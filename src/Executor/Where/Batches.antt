-- ===== src/Executor/Where/Batches.antt =====
-- The batches and the threads of the full scan of `execute_where`, against one filter.
use tsurugi_graph.Base.{
  ℕ, zero, suc, ◌+◌, ◌-◌, ◌*◌, ◌/◌, ◌≤◌, ◌≡◌, refl, sym, ap, ◌∙◌, inl, inr, Bool, true, Option,
  none, List, [], ◌∷◌, ◌++◌, arith, Bytes, find_id, assign_id, find_id-assign_id, contains, length,
  take, drop, keep, leb, ◌==◌, ==_iff, Bool-cases, Option-cases,
}
use native.Mathlib.Nat.{lt-mul-div-succ}
use tsurugi_graph.Keys.{to_key}
use tsurugi_graph.Kvs.{Kvs}
use tsurugi_graph.Storage.State.{Storage, World, is_open}
use tsurugi_graph.Storage.Nodes.{read_nodes, get_nodes_batch}
use tsurugi_graph.Executor.Where.{
  Comparison, passes, map_of, parallel_keep, num_threads, keep_chunk, filter_chunk, filter_batches,
  full_scan,
}

module _ {ℓ} {A : Type ℓ} where
  take-drop : (n : ℕ) (xs : List A) → take n xs ++ drop n xs ≡ xs
  take-drop zero xs = refl
  take-drop (suc n) [] = refl
  take-drop (suc n) (x ∷ xs) = ap (◌∷◌ x) (take-drop n xs)

  length-drop : (n : ℕ) (xs : List A) → length (drop n xs) ≡ length xs - n
  length-drop zero xs = omega arith
  length-drop (suc n) [] = omega arith
  length-drop (suc n) (x ∷ xs) = omega (arith, length-drop n xs)

  keep-append : (p : A → Bool) (xs ys : List A) → keep p (xs ++ ys) ≡ keep p xs ++ keep p ys
  unfolding keep
  keep-append p [] ys = refl
  keep-append p (x ∷ xs) ys = ground (arith, keep-append p xs ys)

  keep-take-drop :
      (p : A → Bool) (n : ℕ) (xs : List A) → keep p (take n xs) ++ keep p (drop n xs) ≡ keep p xs
  keep-take-drop p n xs = sym (keep-append p (take n xs) (drop n xs)) ∙ ap (keep p) (take-drop n xs)

parallel_keep-keep :
    (threads chunk_sz : ℕ) (p : ℕ → Bool) (ids : List ℕ)
    → length ids ≤ threads * chunk_sz
    → parallel_keep threads chunk_sz p ids ≡ keep p ids
unfolding parallel_keep keep
parallel_keep-keep zero chunk_sz p [] h = refl
parallel_keep-keep zero chunk_sz p (id ∷ ids) h = absurd (omega arith)
parallel_keep-keep (suc threads) chunk_sz p [] h = refl
parallel_keep-keep (suc threads) chunk_sz p (id ∷ ids) h =
    let rest : length (drop chunk_sz (id ∷ ids)) ≤ threads * chunk_sz =
      grind (arith, length-drop chunk_sz (id ∷ ids)) in
    ap (◌++◌ (keep p (take chunk_sz (id ∷ ids))))
      (parallel_keep-keep threads chunk_sz p (drop chunk_sz (id ∷ ids)) rest)
    ∙ keep-take-drop p chunk_sz (id ∷ ids)

mul_step : (n q : ℕ) → n * (q + 1) ≡ n * q + n
mul_step n q = grind arith

-- Rounded up, the slices hold all ids.
slices_cover : (len n : ℕ) → 2 ≤ n → len ≤ n * ((len + n - 1) / n)
slices_cover len n h =
    omega
      (arith, lt-mul-div-succ (len + n - 1) {b = n} (omega arith), mul_step n ((len + n - 1) / n))

num_threads_bound : (concurrency size : ℕ) → 2 ≤ num_threads concurrency size
unfolding num_threads
num_threads_bound concurrency size = ground arith

keep_chunk-keep :
    (concurrency : ℕ) (p : ℕ → Bool) (ids : List ℕ) → keep_chunk concurrency p ids ≡ keep p ids
unfolding keep_chunk
keep_chunk-keep concurrency p ids = elim (Bool-cases (leb 10000 (length ids))) [
  | inr few ↦ rw few refl
  | inl many ↦ rw many (
      parallel_keep-keep (num_threads concurrency (length ids)) _ p ids
        (slices_cover (length ids) _ (num_threads_bound concurrency (length ids))))
]

keep_congr :
    (p q : ℕ → Bool) (ids : List ℕ)
    → ((id : ℕ) → contains id ids ≡ true → p id ≡ q id)
    → keep p ids ≡ keep q ids
unfolding keep contains
keep_congr p q [] h = refl
keep_congr p q (id ∷ ids) h =
    ground (arith, h id (ground arith), keep_congr p q ids λ j e. h j (ground arith))

module _ {S : Type 0} (kvs : Kvs S) where
  -- What a node's record is read as.
  abbrev pub record_of : Storage → S → ℕ → Option Bytes
  record_of st db id = kvs.content_get db st.nodes_handle (to_key id)

  map_of_known :
      (st : Storage) (db : S) (id : ℕ) (ids : List ℕ) (m : List (ℕ × Bytes))
      → find_id id m ≡ record_of st db id
      → find_id id (map_of m (read_nodes kvs st db ids)) ≡ record_of st db id
  unfolding map_of read_nodes
  map_of_known st db id [] m h = h
  map_of_known st db id (j ∷ ids) m h = elim (Option-cases (record_of st db j)) [
    | inl e ↦ rw (e, read_nodes) (map_of_known st db id ids m h)
    | inr (v, e) ↦
        rw (e, read_nodes)
          (map_of_known st db id ids (assign_id j v m) (ground (arith, find_id-assign_id j id v m)))
  ]

  map_of_head :
      (st : Storage) (db : S) (id j : ℕ) (ids : List ℕ) (m : List (ℕ × Bytes))
      → find_id id m ≡ none
      → j ≡ id
      → find_id id (map_of m (read_nodes kvs st db (j ∷ ids))) ≡ record_of st db id
  unfolding map_of read_nodes
  map_of_head st db id j ids m h same = elim (Option-cases (record_of st db j)) [
    | inl e ↦
        rw (e, read_nodes) (map_of_known st db id ids m (h ∙ sym e ∙ ap (record_of st db) same))
    | inr (v, e) ↦
        rw (e, read_nodes)
          (map_of_known st db id ids (assign_id j v m) (
            find_id-assign_id j id v m
            ∙ rw ((==_iff j id).1 same) (sym e ∙ ap (record_of st db) same)))
  ]

  pub map_of_read :
      (st : Storage) (db : S) (id : ℕ) (ids : List ℕ) (m : List (ℕ × Bytes))
      → find_id id m ≡ none
      → contains id ids ≡ true
      → find_id id (map_of m (read_nodes kvs st db ids)) ≡ record_of st db id
  unfolding map_of read_nodes contains
  map_of_read st db id [] m h k = absurd (ground arith)
  map_of_read st db id (j ∷ ids) m h k = elim (Bool-cases (j == id)) [
    | inl same ↦ let e : j ≡ id = ground arith in map_of_head st db id j ids m h e
    | inr ne ↦
        let rest : contains id ids ≡ true = ground arith in
        elim (Option-cases (record_of st db j)) [
          | inl e ↦ rw (e, read_nodes) (map_of_read st db id ids m h rest)
          | inr (v, e) ↦
              rw (e, read_nodes)
                (map_of_read st db id ids (assign_id j v m)
                  (ground (arith, find_id-assign_id j id v m)) rest)
        ]
  ]

  keep_read :
      (key : Bytes) (c : Comparison) (stod : Bytes → Option ℕ) (tx concurrency : ℕ) (w : World S)
      (ids : List ℕ)
      → is_open tx w.store.nodes_handle ≡ true
      → filter_chunk kvs stod concurrency tx key c w ids
        ≡ keep (λ id. passes stod key c (record_of w.store w.db id)) ids
  unfolding filter_chunk get_nodes_batch find_id
  keep_read key c stod tx concurrency w ids h = rw h (
      keep_chunk-keep concurrency _ ids
      ∙ keep_congr _ _ ids
          (λ id k. ap (passes stod key c) (map_of_read w.store w.db id ids [] refl k)))

  filter_batches-keep :
      (fuel : ℕ) (key : Bytes) (c : Comparison) (stod : Bytes → Option ℕ) (tx concurrency : ℕ)
      (w : World S) (ids : List ℕ)
      → is_open tx w.store.nodes_handle ≡ true
      → length ids ≤ fuel
      → filter_batches kvs stod concurrency tx fuel key c w ids
        ≡ keep (λ id. passes stod key c (record_of w.store w.db id)) ids
  unfolding filter_batches keep
  filter_batches-keep zero key c stod tx concurrency w [] h n = refl
  filter_batches-keep zero key c stod tx concurrency w (id ∷ ids) h n = absurd (omega arith)
  filter_batches-keep (suc fuel) key c stod tx concurrency w [] h n = refl
  filter_batches-keep (suc fuel) key c stod tx concurrency w (id ∷ ids) h n =
      let p : ℕ → Bool = λ j. passes stod key c (record_of w.store w.db j) in
      let rest : length (drop 1024 (id ∷ ids)) ≤ fuel =
        omega (arith, length-drop 1024 (id ∷ ids)) in
      rw (keep_read key c stod tx concurrency w (take 1024 (id ∷ ids)) h) (
        ap (◌++◌ (keep p (take 1024 (id ∷ ids))))
          (filter_batches-keep fuel key c stod tx concurrency w (drop 1024 (id ∷ ids)) h rest)
        ∙ keep-take-drop p 1024 (id ∷ ids))

  -- With an open transaction and an open table of nodes, the full scan of WHERE keeps the ids whose
  -- own record passes the test, in order and as often as they stand in the list: neither the batches
  -- nor the number of threads that the hardware gives plays a part.
  pub full_scan-keep :
      (key : Bytes) (c : Comparison) (stod : Bytes → Option ℕ) (tx concurrency : ℕ) (w : World S)
      (ids : List ℕ)
      → is_open tx w.store.nodes_handle ≡ true
      → full_scan kvs stod concurrency tx key c w ids
        ≡ keep (λ id. passes stod key c (record_of w.store w.db id)) ids
  unfolding full_scan
  full_scan-keep key c stod tx concurrency w ids h =
      filter_batches-keep (length ids) key c stod tx concurrency w ids h (omega arith)
