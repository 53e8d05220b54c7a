-- ===== src/QueryCache/Reads.antt =====
-- What `get` finds after `put`.
use tsurugi_graph.Base.{
  ◌≡◌, refl, inl, inr, Option, none, some, ◌∷◌, Bytes, leb, length, Bool-cases, Option-cases, find,
  assign, find-assign_self,
}
use mathlib.Core.Path.{subst}
use tsurugi_graph.QueryCache.Cache.{
  Cache, erase_node, push_front, move_to_front, get, evict, insert, put,
}

module _ {ℓ} {V : Type ℓ} where
  -- What `get` leaves of a cache whose first node is the query's.
  refreshed : Bytes → Cache V → Cache V
  refreshed query c = push_front query (record (push_front query c) {
    lru_order = erase_node c.next_node ((c.next_node, query) ∷ c.lru_order);
  })

  -- A query that was put to the front is there to be found.
  get-push_front :
      (query : Bytes) (v : V) (c : Cache V)
      → find query c.cache ≡ some v
      → get query (push_front query c) ≡ some (some v, refreshed query c)
  unfolding get move_to_front push_front refreshed
  get-push_front query v c h = rw (h, get) (rw (find-assign_self query c.next_node c.lru_map) refl)

  -- Where there is a cache, `get` hits in it.
  abbrev pub HitIn : Bytes → V → Option (Cache V) → Type ℓ
  HitIn query v none = Unit
  HitIn query v (some c) = (c' : Cache V) × (get query c ≡ some (some v, c'))

  record Hits (query : Bytes) (v : V) (o : Option (Cache V)) : Type ℓ where
    hit : HitIn query v o

  insert-Hits : (query : Bytes) (v : V) (c : Cache V) → Hits query v (some (insert query v c))
  unfolding insert
  insert-Hits query v c =
      let d : Cache V = record c { cache = assign query v c.cache } in
      record {
        hit = (refreshed query d, get-push_front query v d (find-assign_self query v c.cache));
      }

  move_to_front-Hits :
      (query : Bytes) (v : V) (c : Cache V)
      → find query c.cache ≡ some v
      → Hits query v (move_to_front query c)
  unfolding move_to_front
  move_to_front-Hits query v c h = elim (Option-cases (find query c.lru_map)) [
    | inl e ↦ rw (e, move_to_front) (record { hit = tt })
    | inr (n, e) ↦
        let d : Cache V = record c { lru_order = erase_node n c.lru_order } in
        rw (e, move_to_front) (record { hit = (refreshed query d, get-push_front query v d h) })
  ]

  put-Hits : (query : Bytes) (v : V) (c : Cache V) → Hits query v (put query v c)
  unfolding put
  put-Hits query v c = elim (Option-cases (find query c.cache)) [
    | inr (old, e) ↦
        rw (e, put)
          (move_to_front-Hits query v (record c { cache = assign query v c.cache })
            (find-assign_self query v c.cache))
    | inl e ↦
        rw (e, put)
          (elim (Bool-cases (leb c.max_size (length c.cache))) [
            | inr room ↦ rw room (insert-Hits query v c)
            | inl full ↦ rw full (elim (Option-cases (evict c)) [
              | inl n ↦ rw n (record { hit = tt })
              | inr (c', n) ↦ rw n (insert-Hits query v c')
            ])
          ])
  ]

  -- Right after `put` returned, `get` finds the query's statement and meets no missing iterator,
  -- whether the query was cached before, room was left, or an entry was evicted.
  get-put :
      (query : Bytes) (v : V) (c c' : Cache V)
      → put query v c ≡ some c'
      → (c'' : Cache V) × (get query c' ≡ some (some v, c''))
  get-put query v c c' h = (subst (λ o. Hits query v o) h (put-Hits query v c)).hit
