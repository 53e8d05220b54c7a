-- ===== src/QueryCache/Recency.antt =====
-- What the cache promises: the entries by their last use, the latest first. A query that is looked
-- up or stored becomes the first entry, and a new query takes the place of the last one if the
-- cache is full.
use tsurugi_graph.Base.{
  ℕ, none, some, List, [], ◌∷◌, Bytes, length, leb, if◌then◌else◌, find, erase,
}

unfoldable pub without_last {ℓ} : {A : Type ℓ} → List A → List A
without_last [] = []
without_last (x ∷ []) = []
without_last (x ∷ y ∷ xs) = x ∷ without_last (y ∷ xs)

module _ {ℓ} {V : Type ℓ} where
  -- The entries after a lookup.
  unfoldable pub touch : Bytes → List (Bytes × V) → List (Bytes × V)
  touch query l = elim (find query l) [ none ↦ l | some v ↦ (query, v) ∷ erase query l ]

  unfoldable pub make_room : ℕ → List (Bytes × V) → List (Bytes × V)
  unfolding without_last
  make_room max_size l = if leb max_size (length l) then without_last l else l

  -- The entries after a query was stored.
  unfoldable pub store : ℕ → Bytes → V → List (Bytes × V) → List (Bytes × V)
  unfolding make_room
  store max_size query v l = elim (find query l) [
    | some old ↦ (query, v) ∷ erase query l
    | none ↦ (query, v) ∷ make_room max_size l
  ]
