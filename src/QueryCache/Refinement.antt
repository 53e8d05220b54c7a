-- ===== src/QueryCache/Refinement.antt =====
-- `get` and `put`, against the entries by their last use.
use tsurugi_graph.Base.{
  find-assign, find-erase, find-erase_self, Distinct-erase, length-erase, erase_absent, ℕ, ◌<◌, ◌≡◌,
  refl, sym, ap, ◌∙◌, suc, Option, none, some, List, ◌∷◌, arith, Bytes, length, leb, if◌then◌else◌,
  inl, inr, Bool-cases, Option-cases, find, erase, assign, eq_bytes, eq_bytes_iff, eq_bytes_refl,
}
use tsurugi_graph.QueryCache.Cache.{Cache, get, evict, insert, put}
use tsurugi_graph.QueryCache.Representation.{
  Represents, push_front-Represents, move_to_front-Represents,
}
use tsurugi_graph.QueryCache.Recency.{without_last, touch, make_room, store}
use tsurugi_graph.QueryCache.Order.{Aligned-erase_key}
use tsurugi_graph.QueryCache.Moves.{evicted}

module _ {ℓ} {V : Type ℓ} where
  same_value :
      (query k : Bytes) (v : V) (l : List (Bytes × V))
      → find query l ≡ some v
      → find k l ≡ (if eq_bytes query k then some v else find k l)
  same_value query k v l f = elim (Bool-cases (eq_bytes query k)) [
    | inl e ↦ let same : query ≡ k = (eq_bytes_iff query k).0 e in rw e (rw (sym same) f)
    | inr e ↦ rw e refl
  ]

  -- `get` returns what is found among the entries, and leaves them with the query's first.
  pub get-Represents :
      (query : Bytes) (c : Cache V) (l : List (Bytes × V))
      → Represents c l
      → (c1 : Cache V) × (get query c ≡ some (find query l, c1))
        × Represents c1 (touch query l)
        × (c1.max_size ≡ c.max_size)
  unfolding get touch
  get-Represents query c l h = elim (Option-cases (find query l)) [
    | inl f ↦
        let missing : find query c.cache ≡ none = h.values query ∙ f in
        (c, rw (missing, get) (rw f refl), rw (f, touch) h, refl)
    | inr (v, f) ↦
        let hit : find query c.cache ≡ some v = h.values query ∙ f in
        let (c1, moved, kept, same) =
          move_to_front-Represents query v v c.cache c l h f
            (λ k. h.values k ∙ same_value query k v l f) h.size h.unique in
        (c1, rw (hit, get) (rw (moved, get) (rw f refl)), rw (f, touch) kept, same)
  ]

  -- What is in the map of the statements after an assignment.
  assigned :
      (query k : Bytes) (v : V) (c : Cache V) (l : List (Bytes × V))
      → Represents c l
      → find k (assign query v c.cache) ≡ (if eq_bytes query k then some v else find k l)
  assigned query k v c l h = find-assign query k v c.cache ∙ ground (arith, h.values k)

  insert-Represents :
      (query : Bytes) (v : V) (c : Cache V) (l : List (Bytes × V))
      → Represents c l
      → find query l ≡ none
      → length l < c.max_size
      → Represents (insert query v c) ((query, v) ∷ l)
  unfolding insert find
  insert-Represents query v c l h f space =
      let absent : find query c.cache ≡ none = h.values query ∙ f in
      let same = erase_absent query c.cache absent in
      push_front-Represents query v (record c { cache = assign query v c.cache }) l
        (record {
          values = λ k. assigned query k v c l h;
          size = ap (λ (m : List (Bytes × V)). suc (length m)) same ∙ ap suc h.size;
          unique = (find-erase_self query c.cache, Distinct-erase query c.cache h.unique);
          distinct = h.distinct;
          absent = f;
          aligned = h.aligned;
          below = h.below;
          bounded = space;
        })

  evict-Represents :
      (c : Cache V) (l : List (Bytes × V))
      → Represents c l
      → 0 < length l
      → (c1 : Cache V) × (evict c ≡ some c1)
        × Represents c1 (without_last l)
        × (c1.max_size ≡ c.max_size)
  unfolding evict
  evict-Represents c l h pos =
      let e = evicted c.next_node c.lru_map c.lru_order l h.below h.distinct h.aligned pos in
      let gone : find e.key (without_last l) ≡ none =
        e.others e.key ∙ rw (eq_bytes_refl e.key) refl in
      let held : find e.key c.cache ≡ some e.value = h.values e.key ∙ e.held in
      (
        record c {
          cache = erase e.key c.cache;
          lru_map = erase e.key c.lru_map;
          lru_order = e.rest;
        },
        rw (e.popped, evict) refl,
        record {
          values = λ k. find-erase e.key k c.cache ∙ rw (h.values k) (sym (e.others k));
          size = omega (arith, length-erase e.key e.value c.cache h.unique held, h.size, e.shorter);
          unique = Distinct-erase e.key c.cache h.unique;
          distinct = e.distinct;
          aligned = Aligned-erase_key e.key c.lru_map e.rest (without_last l) gone e.aligned;
          below = e.below;
          bounded = omega (arith, e.shorter, h.bounded);
          room = h.room;
        },
        refl,
      )

  -- What `put` promises, with the size that the cache may have.
  abbrev pub Stores : ℕ → Option (Cache V) → List (Bytes × V) → Type ℓ
  Stores max_size o l = (c1 : Cache V) × (o ≡ some c1) × Represents c1 l × (c1.max_size ≡ max_size)

  put_new-Represents :
      (query : Bytes) (v : V) (c : Cache V) (l : List (Bytes × V))
      → Represents c l
      → find query l ≡ none
      → Stores c.max_size (put query v c) ((query, v) ∷ make_room c.max_size l)
  unfolding put make_room
  put_new-Represents query v c l h f =
      let absent : find query c.cache ≡ none = h.values query ∙ f in
      rw (absent, put)
        (rw h.size (elim (Bool-cases (leb c.max_size (length l))) [
          | inr space ↦
              rw (space, insert)
                (insert query v c, refl, insert-Represents query v c l h f (ground arith), refl)
          | inl full ↦
              let pos : 0 < length l = ground (arith, h.room) in
              let (c1, e, kept, same) = evict-Represents c l h pos in
              let ev =
                evicted c.next_node c.lru_map c.lru_order l h.below h.distinct h.aligned pos in
              let gone : find query (without_last l) ≡ none = ev.others query ∙ ground (arith, f) in
              let space : length (without_last l) < c1.max_size =
                omega (arith, ev.shorter, h.bounded, same) in
              rw full (
                rw e (
                  insert query v c1,
                  refl,
                  insert-Represents query v c1 (without_last l) kept gone space,
                  same,
                ))
        ]))

  -- `put` never meets a missing iterator or an empty list, and leaves the entries with the query's
  -- first, without the one that was used last of all if a new one takes its place.
  pub put-Represents :
      (query : Bytes) (v : V) (c : Cache V) (l : List (Bytes × V))
      → Represents c l
      → (c1 : Cache V) × (put query v c ≡ some c1)
        × Represents c1 (store c.max_size query v l)
        × (c1.max_size ≡ c.max_size)
  unfolding put store
  put-Represents query v c l h = elim (Option-cases (find query l)) [
    | inl f ↦ rw (f, store) (put_new-Represents query v c l h f)
    | inr (old, f) ↦
        let hit : find query c.cache ≡ some old = h.values query ∙ f in
        let (c1, moved, kept, same) =
          move_to_front-Represents query v old (assign query v c.cache) c l h f
            (λ k. assigned query k v c l h) (length-erase query old c.cache h.unique hit ∙ h.size)
            (find-erase_self query c.cache, Distinct-erase query c.cache h.unique) in
        rw (f, store) (rw (hit, put) (c1, moved, kept, same))
  ]
