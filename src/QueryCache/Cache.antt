-- ===== src/QueryCache/Cache.antt =====
-- Class `query_cache`. An iterator into the `std::list` is the identity of its node: nodes are
-- numbered as they are allocated, so that erasing through an iterator erases the node with that
-- number. `none` is undefined behaviour or an exception: an iterator that is missing, or `back()`
-- on an empty list.
use tsurugi_graph.Base.{
  ℕ, suc, Option, none, some, List, [], ◌∷◌, Bytes, length, ◌==◌, leb, if◌then◌else◌, find, erase,
  assign,
}

-- The nodes of the list, the front first, each with its number.
unfoldable pub erase_node : ℕ → List (ℕ × Bytes) → List (ℕ × Bytes)
erase_node n [] = []
erase_node n ((m, k) ∷ l) = let rest = erase_node n l in if m == n then rest else (m, k) ∷ rest

-- `lru_order_.back()` and the list behind `pop_back()`.
unfoldable pub pop_back : List (ℕ × Bytes) → Option (Bytes × List (ℕ × Bytes))
pop_back [] = none
pop_back ((m, k) ∷ []) = some (k, [])
pop_back ((m, k) ∷ e ∷ l) = elim (pop_back (e ∷ l)) [
  | none ↦ none
  | some (last, rest) ↦ some (last, (m, k) ∷ rest)
]

module _ {ℓ} (V : Type ℓ) where
  pub record Cache : Type ℓ where
    pub max_size : ℕ
    pub cache : List (Bytes × V)
    pub lru_order : List (ℕ × Bytes)
    pub lru_map : List (Bytes × ℕ)
    -- the number of the next node
    pub next_node : ℕ

module _ {ℓ} {V : Type ℓ} where
  unfoldable pub init : ℕ → Cache V
  init max_size = record {
    max_size = max_size;
    cache = [];
    lru_order = [];
    lru_map = [];
    next_node = 0;
  }

  -- `lru_order_.push_front(query); lru_map_[query] = lru_order_.begin();`
  unfoldable pub push_front : Bytes → Cache V → Cache V
  push_front query c = record c {
    lru_order = (c.next_node, query) ∷ c.lru_order;
    lru_map = assign query c.next_node c.lru_map;
    next_node = suc c.next_node;
  }

  -- `lru_order_.erase(lru_map_.at(query))`, then to the front.
  unfoldable pub move_to_front : Bytes → Cache V → Option (Cache V)
  unfolding push_front
  move_to_front query c = elim (find query c.lru_map) [
    | none ↦ none
    | some n ↦ some (push_front query (record c { lru_order = erase_node n c.lru_order }))
  ]

  -- The statement, or a miss, and the cache.
  unfoldable pub get : Bytes → Cache V → Option (Option V × Cache V)
  unfolding move_to_front
  get query c = elim (find query c.cache) [
    | none ↦ some (none, c)
    | some v ↦ elim (move_to_front query c) [ none ↦ none | some c' ↦ some (some v, c') ]
  ]

  -- Evicts the entry at the back.
  unfoldable pub evict : Cache V → Option (Cache V)
  evict c = elim (pop_back c.lru_order) [
    | none ↦ none
    | some (key, rest) ↦
        some
          (record c { cache = erase key c.cache; lru_map = erase key c.lru_map; lru_order = rest })
  ]

  unfoldable pub insert : Bytes → V → Cache V → Cache V
  unfolding push_front
  insert query v c = push_front query (record c { cache = assign query v c.cache })

  unfoldable pub put : Bytes → V → Cache V → Option (Cache V)
  unfolding move_to_front evict insert
  put query v c = elim (find query c.cache) [
    | some old ↦ move_to_front query (record c { cache = assign query v c.cache })
    | none ↦
        if leb c.max_size (length c.cache)
        then (elim (evict c) [ none ↦ none | some c' ↦ some (insert query v c') ])
        else some (insert query v c)
  ]

  unfoldable pub clear : Cache V → Cache V
  clear c = record c { cache = []; lru_order = []; lru_map = [] }

  unfoldable pub size : Cache V → ℕ
  size c = length c.cache
