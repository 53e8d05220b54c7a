-- ===== src/QueryCache/Order.antt =====
-- The list of nodes and the map of iterators, against the entries by their last use.
use tsurugi_graph.Base.{
  find-erase, find-assign, ℕ, ◌≤◌, ◌<◌, ◌≡◌, refl, sym, ◌∙◌, false, none, some, List, [], ◌∷◌,
  arith, Bytes, inl, inr, ◌==◌, Bool-cases, find, erase, assign, eq_bytes, eq_bytes_iff,
}
use tsurugi_graph.QueryCache.Cache.{erase_node}

-- The numbers of the nodes fall, and are below `bound`.
abbrev pub Below : ℕ → List (ℕ × Bytes) → Type 0
Below bound [] = Unit
Below bound ((n, k) ∷ o) = (n < bound) × Below n o

Below-le : (a b : ℕ) (o : List (ℕ × Bytes)) → a ≤ b → Below a o → Below b o
Below-le a b [] h k = tt
Below-le a b ((n, q) ∷ o) h k = (omega (arith, k.0), k.1)

pub Below-erase_node : (b n : ℕ) (o : List (ℕ × Bytes)) → Below b o → Below b (erase_node n o)
unfolding erase_node
Below-erase_node b n [] h = tt
Below-erase_node b n ((m, k) ∷ o) h = elim (Bool-cases (m == n)) [
  | inl e ↦ rw e (Below-le m b _ (omega (arith, h.0)) (Below-erase_node m n o h.1))
  | inr e ↦ rw e (h.0, Below-erase_node m n o h.1)
]

pub erase_node_absent : (b n : ℕ) (o : List (ℕ × Bytes)) → Below b o → b ≤ n → erase_node n o ≡ o
unfolding erase_node
erase_node_absent b n [] h le = refl
erase_node_absent b n ((m, k) ∷ o) h le =
    ground (arith, h.0, erase_node_absent m n o h.1 (omega (arith, h.0)))

module _ {ℓ} {V : Type ℓ} where
  -- The nodes carry the entries' keys in their order, and the map has an iterator to each.
  abbrev pub Aligned : List (Bytes × ℕ) → List (ℕ × Bytes) → List (Bytes × V) → Type 0
  Aligned map [] [] = Unit
  Aligned map [] (e ∷ l) = ⊥
  Aligned map (n ∷ o) [] = ⊥
  Aligned map ((n, k) ∷ o) ((j, v) ∷ l) = (k ≡ j) × (find j map ≡ some n) × Aligned map o l

  -- A key of the list is no key behind which it is not found.
  other_key :
      (k j : Bytes) (v : V) (l : List (Bytes × V))
      → find k ((j, v) ∷ l) ≡ none
      → (eq_bytes k j ≡ false) × (find k l ≡ none)
  unfolding find
  other_key k j v l h = elim (Bool-cases (eq_bytes j k)) [
    | inl e ↦ absurd (ground arith)
    | inr e ↦ (ground (arith, eq_bytes_iff k j, eq_bytes_iff j k), ground arith)
  ]

  pub Aligned-assign :
      (k : Bytes) (n : ℕ) (map : List (Bytes × ℕ)) (o : List (ℕ × Bytes)) (l : List (Bytes × V))
      → find k l ≡ none
      → Aligned map o l
      → Aligned (assign k n map) o l
  Aligned-assign k n map [] [] h a = tt
  Aligned-assign k n map [] (e ∷ l) h a = a
  Aligned-assign k n map (m ∷ o) [] h a = a
  Aligned-assign k n map ((m, q) ∷ o) ((j, v) ∷ l) h a =
      let (ne, rest) = other_key k j v l h in
      (a.0, find-assign k j n map ∙ rw ne a.1, Aligned-assign k n map o l rest a.2)

  pub Aligned-erase_key :
      (k : Bytes) (map : List (Bytes × ℕ)) (o : List (ℕ × Bytes)) (l : List (Bytes × V))
      → find k l ≡ none
      → Aligned map o l
      → Aligned (erase k map) o l
  Aligned-erase_key k map [] [] h a = tt
  Aligned-erase_key k map [] (e ∷ l) h a = a
  Aligned-erase_key k map (m ∷ o) [] h a = a
  Aligned-erase_key k map ((m, q) ∷ o) ((j, v) ∷ l) h a =
      let (ne, rest) = other_key k j v l h in
      (a.0, find-erase k j map ∙ rw ne a.1, Aligned-erase_key k map o l rest a.2)

  -- The iterator of an entry.
  pub number-Below :
      (k : Bytes) (v : V) (b : ℕ) (map : List (Bytes × ℕ)) (o : List (ℕ × Bytes))
      (l : List (Bytes × V))
      → Below b o
      → Aligned map o l
      → find k l ≡ some v
      → (n : ℕ) × (find k map ≡ some n) × (n < b)
  unfolding find
  number-Below k v b map [] [] h a f = absurd (ground arith)
  number-Below k v b map [] (e ∷ l) h a f = absurd a
  number-Below k v b map (m ∷ o) [] h a f = absurd a
  number-Below k v b map ((m, q) ∷ o) ((j, w) ∷ l) h a f = elim (Bool-cases (eq_bytes j k)) [
    | inl e ↦ (m, rw (sym ((eq_bytes_iff j k).0 e)) a.1, h.0)
    | inr e ↦
        let (n, found, lt) = number-Below k v m map o l h.1 a.2 (ground arith) in
        (n, found, omega (arith, h.0))
  ]
