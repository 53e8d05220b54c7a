-- ===== src/QueryCache/Representation.antt =====
-- What it means that the cache holds entries, ordered by their last use, and the move to the front.
use tsurugi_graph.Base.{
  Distinct, find-assign_self, find-erase, find-erase_self, Distinct-erase, length-erase, ℕ, ◌≤◌,
  ◌<◌, ◌≡◌, refl, sym, ◌∙◌, suc, none, some, List, [], ◌∷◌, arith, Bytes, length, if◌then◌else◌,
  find, erase, eq_bytes,
}
use tsurugi_graph.QueryCache.Cache.{Cache, erase_node, init, push_front, move_to_front}
use tsurugi_graph.QueryCache.Order.{Below, Below-erase_node, Aligned, Aligned-assign, number-Below}
use tsurugi_graph.QueryCache.Moves.{Aligned-erase_node}

module _ {ℓ} {V : Type ℓ} where
  -- The cache holds the entries `l`, as many as it may.
  pub record Represents (c : Cache V) (l : List (Bytes × V)) : Type ℓ where
    pub values : (k : Bytes) → find k c.cache ≡ find k l
    pub size : length c.cache ≡ length l
    pub unique : Distinct c.cache
    pub distinct : Distinct l
    pub aligned : Aligned c.lru_map c.lru_order l
    pub below : Below c.next_node c.lru_order
    pub bounded : length l ≤ c.max_size
    pub room : 0 < c.max_size

  pub init-Represents : (max_size : ℕ) → 0 < max_size → Represents (init max_size) []
  unfolding init
  init-Represents max_size pos = record {
    values = λ k. refl;
    size = refl;
    unique = tt;
    distinct = tt;
    aligned = tt;
    below = tt;
    bounded = omega arith;
    room = pos;
  }

  -- The map of the statements apart from the order: what `push_front` is to be called on.
  pub record Ready (query : Bytes) (v : V) (c : Cache V) (l : List (Bytes × V)) : Type ℓ where
    pub values : (k : Bytes) → find k c.cache ≡ find k ((query, v) ∷ l)
    pub size : length c.cache ≡ suc (length l)
    pub unique : Distinct c.cache
    pub distinct : Distinct l
    pub absent : find query l ≡ none
    pub aligned : Aligned c.lru_map c.lru_order l
    pub below : Below c.next_node c.lru_order
    pub bounded : length l < c.max_size

  pub push_front-Represents :
      (query : Bytes) (v : V) (c : Cache V) (l : List (Bytes × V))
      → Ready query v c l
      → Represents (push_front query c) ((query, v) ∷ l)
  unfolding push_front
  push_front-Represents query v c l h = record {
    values = h.values;
    size = h.size;
    unique = h.unique;
    distinct = (h.absent, h.distinct);
    aligned = (
      refl,
      find-assign_self query c.next_node c.lru_map,
      Aligned-assign query c.next_node c.lru_map c.lru_order l h.absent h.aligned,
    );
    below = (omega arith, h.below);
    bounded = omega (arith, h.bounded);
    room = omega (arith, h.bounded);
  }

  -- Moving an entry that is there, with the value that the map of the statements has for it.
  moved-Ready :
      (query : Bytes) (v old : V) (n : ℕ) (statements : List (Bytes × V)) (c : Cache V)
      (l : List (Bytes × V))
      → Represents c l
      → find query l ≡ some old
      → find query c.lru_map ≡ some n
      → ((k : Bytes) → find k statements ≡ (if eq_bytes query k then some v else find k l))
      → length statements ≡ length l
      → Distinct statements
      → Ready query v
          (record c { cache = statements; lru_order = erase_node n c.lru_order })
          (erase query l)
  unfolding find
  moved-Ready query v old n statements c l h f i values size unique =
      let shorter = length-erase query old l h.distinct f in
      record {
        values = λ k. values k ∙ ground (arith, find-erase query k l);
        size = size ∙ sym shorter;
        unique = unique;
        distinct = Distinct-erase query l h.distinct;
        absent = find-erase_self query l;
        aligned =
            Aligned-erase_node query old n c.next_node c.lru_map c.lru_order l h.below h.distinct
              h.aligned i f;
        below = Below-erase_node c.next_node n c.lru_order h.below;
        bounded = omega (arith, h.bounded);
      }

  pub move_to_front-Represents :
      (query : Bytes) (v old : V) (statements : List (Bytes × V)) (c : Cache V)
      (l : List (Bytes × V))
      → Represents c l
      → find query l ≡ some old
      → ((k : Bytes) → find k statements ≡ (if eq_bytes query k then some v else find k l))
      → length statements ≡ length l
      → Distinct statements
      → (c1 : Cache V) × (move_to_front query (record c { cache = statements }) ≡ some c1)
        × Represents c1 ((query, v) ∷ erase query l)
        × (c1.max_size ≡ c.max_size)
  unfolding move_to_front push_front
  move_to_front-Represents query v old statements c l h f values size unique =
      let (n, i, lt) =
        number-Below query old c.next_node c.lru_map c.lru_order l h.below h.aligned f in
      let c1 : Cache V = record c { cache = statements; lru_order = erase_node n c.lru_order } in
      (
        push_front query c1,
        rw (i, move_to_front) refl,
        push_front-Represents query v c1 (erase query l)
            (moved-Ready query v old n statements c l h f i values size unique),
        refl,
      )
