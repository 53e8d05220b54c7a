-- ===== src/QueryCache/Entries.antt =====
-- Properties of the entries of the cache, over `get` and `put`.
use tsurugi_graph.Base.{
  ◌≡◌, refl, sym, inl, inr, Option, none, some, List, [], ◌∷◌, arith, Bytes, leb, length,
  Bool-cases, Option-cases, find, erase, assign, eq_bytes, eq_bytes_iff, All,
}
use mathlib.Core.Path.{subst}
use tsurugi_graph.QueryCache.Cache.{
  Cache, push_front, move_to_front, get, pop_back, evict, insert, put,
}

module _ {ℓ κ} {V : Type ℓ} (P : Bytes × V → Type κ) where
  All-erase : (k : Bytes) (m : List (Bytes × V)) → All P m → All P (erase k m)
  unfolding erase
  All-erase k [] h = tt
  All-erase k ((j, v) ∷ m) h = elim (Bool-cases (eq_bytes j k)) [
    | inl e ↦ rw e (All-erase k m h.1)
    | inr e ↦ rw e (h.0, All-erase k m h.1)
  ]

  pub find-All : (k : Bytes) (v : V) (m : List (Bytes × V)) → All P m → find k m ≡ some v → P (k, v)
  unfolding find
  find-All k v [] h e = absurd (ground arith)
  find-All k v ((j, w) ∷ m) h e = elim (Bool-cases (eq_bytes j k)) [
    | inl same ↦
        let head : w ≡ v = ground arith in subst P (cc ((eq_bytes_iff j k).0 same, head)) h.0
    | inr ne ↦ find-All k v m h.1 (ground arith)
  ]

  abbrev KeptIn : Option (Cache V) → Type κ
  KeptIn none = Unit
  KeptIn (some c) = All P c.cache

  -- The cache that is left has the property, where there is one.
  record Kept (o : Option (Cache V)) : Type κ where
    kept : KeptIn o

  move_to_front-Kept : (query : Bytes) (c : Cache V) → All P c.cache → Kept (move_to_front query c)
  unfolding move_to_front
  move_to_front-Kept query c h = elim (Option-cases (find query c.lru_map)) [
    | inl e ↦ rw (e, move_to_front) (record { kept = tt })
    | inr (n, e) ↦ rw (e, move_to_front) (record { kept = h })
  ]

  insert-Kept :
      (query : Bytes) (v : V) (c : Cache V)
      → P (query, v)
      → All P c.cache
      → Kept (some (insert query v c))
  unfolding insert
  insert-Kept query v c p h = record { kept = (p, All-erase query c.cache h) }

  evict-Kept : (c : Cache V) → All P c.cache → Kept (evict c)
  unfolding evict
  evict-Kept c h = elim (Option-cases (pop_back c.lru_order)) [
    | inl e ↦ rw (e, evict) (record { kept = tt })
    | inr (p, e) ↦ rw (e, evict) (record { kept = All-erase p.0 c.cache h })
  ]

  put-Kept :
      (query : Bytes) (v : V) (c : Cache V) → P (query, v) → All P c.cache → Kept (put query v c)
  unfolding put
  put-Kept query v c p h = elim (Option-cases (find query c.cache)) [
    | inr (old, e) ↦
        rw (e, put)
          (move_to_front-Kept query (record c { cache = assign query v c.cache })
            (p, All-erase query c.cache h))
    | inl e ↦
        rw (e, put)
          (elim (Bool-cases (leb c.max_size (length c.cache))) [
            | inr room ↦ rw room (insert-Kept query v c p h)
            | inl full ↦ rw full (elim (Option-cases (evict c)) [
              | inl n ↦ rw n (record { kept = tt })
              | inr (c', n) ↦
                  rw n (insert-Kept query v c' p (subst (λ o. Kept o) n (evict-Kept c h)).kept)
            ])
          ])
  ]

  pub put-All :
      (query : Bytes) (v : V) (c c' : Cache V)
      → P (query, v)
      → All P c.cache
      → put query v c ≡ some c'
      → All P c'.cache
  put-All query v c c' p h e = (subst (λ o. Kept o) e (put-Kept query v c p h)).kept

module _ {ℓ} {V : Type ℓ} where
  abbrev ReadIn : Bytes → Cache V → Option (Option V × Cache V) → Type ℓ
  ReadIn query c none = Unit
  ReadIn query c (some (r, c')) = (r ≡ find query c.cache) × (c'.cache ≡ c.cache)

  record Read (query : Bytes) (c : Cache V) (o : Option (Option V × Cache V)) : Type ℓ where
    read : ReadIn query c o

  get-Read : (query : Bytes) (c : Cache V) → Read query c (get query c)
  unfolding get move_to_front push_front
  get-Read query c = elim (Option-cases (find query c.cache)) [
    | inl e ↦ rw (e, get) (record { read = (sym e, refl) })
    | inr (v, e) ↦ elim (Option-cases (find query c.lru_map)) [
      | inl n ↦ rw (e, get) (rw n (record { read = tt }))
      | inr (k, n) ↦ rw (e, get) (rw n (record { read = (sym e, refl) }))
    ]
  ]

  pub get-find :
      (query : Bytes) (c c' : Cache V) (r : Option V)
      → get query c ≡ some (r, c')
      → (r ≡ find query c.cache) × (c'.cache ≡ c.cache)
  get-find query c c' r e = (subst (λ o. Read query c o) e (get-Read query c)).read
