-- ===== src/QueryCache/Moves.antt =====
-- An entry that leaves its place in the order, and the last one.
use tsurugi_graph.Base.{
  Distinct, erase_absent, ℕ, ◌<◌, ◌≡◌, refl, sym, ap, ◌∙◌, suc, false, none, some, List, [], ◌∷◌,
  arith, Bytes, length, if◌then◌else◌, inl, inr, ◌==◌, ==_refl, Bool-cases, find, erase, eq_bytes,
  eq_bytes_iff, eq_bytes_refl,
}
use mathlib.Core.Path.{subst}
use tsurugi_graph.QueryCache.Cache.{erase_node, pop_back}
use tsurugi_graph.QueryCache.Recency.{without_last}
use tsurugi_graph.QueryCache.Order.{Below, erase_node_absent, Aligned, number-Below}

module _ {ℓ} {V : Type ℓ} where
  pub Aligned-erase_node :
      (k : Bytes) (v : V) (n b : ℕ) (map : List (Bytes × ℕ)) (o : List (ℕ × Bytes))
      (l : List (Bytes × V))
      → Below b o
      → Distinct l
      → Aligned map o l
      → find k map ≡ some n
      → find k l ≡ some v
      → Aligned map (erase_node n o) (erase k l)
  unfolding find erase erase_node
  Aligned-erase_node k v n b map [] [] h d a i f = tt
  Aligned-erase_node k v n b map [] (e ∷ l) h d a i f = absurd a
  Aligned-erase_node k v n b map (m ∷ o) [] h d a i f = absurd a
  Aligned-erase_node k v n b map ((m, q) ∷ o) ((j, w) ∷ l) h d a i f =
      elim (Bool-cases (eq_bytes j k)) [
        | inl e ↦
            let same : j ≡ k = (eq_bytes_iff j k).0 e in
            let gone : find k l ≡ none = rw (sym same) d.0 in
            let number : m ≡ n = cc (a.1, i, same) in
            rw e (
              subst
                (λ x.
                  Aligned map (if x == n then erase_node n o else (x, q) ∷ erase_node n o)
                    (erase k l))
                (sym number)
                (rw (==_refl n) (
                  rw (erase_node_absent m n o h.1 (omega (arith, number)))
                    (rw (erase_absent k l gone) a.2))))
        | inr e ↦
            let rest : find k l ≡ some v = ground arith in
            let (n1, found, lt) = number-Below k v m map o l h.1 a.2 rest in
            let other : m == n ≡ false = ground (arith, i, found, lt) in
            rw e (rw other (a.0, a.1, Aligned-erase_node k v n m map o l h.1 d.1 a.2 i rest))
      ]

  -- What is left in the list of nodes without the last one, whose key is `key`.
  pub record Evicted (bound : ℕ) (map : List (Bytes × ℕ)) (o : List (ℕ × Bytes))
      (l : List (Bytes × V)) : Type ℓ where
    pub key : Bytes
    pub value : V
    pub rest : List (ℕ × Bytes)
    pub popped : pop_back o ≡ some (key, rest)
    pub aligned : Aligned map rest (without_last l)
    pub below : Below bound rest
    pub held : find key l ≡ some value
    pub others : (j : Bytes) → find j (without_last l) ≡ (if eq_bytes key j then none else find j l)
    pub distinct : Distinct (without_last l)
    pub shorter : suc (length (without_last l)) ≡ length l

  last-Evicted :
      (b m : ℕ) (j : Bytes) (v : V) (map : List (Bytes × ℕ))
      → Evicted b map ((m, j) ∷ []) ((j, v) ∷ [])
  unfolding find pop_back without_last
  last-Evicted b m j v map = record {
    key = j;
    value = v;
    rest = [];
    popped = refl;
    aligned = tt;
    below = tt;
    held = rw (eq_bytes_refl j) refl;
    others = λ i. ground arith;
    distinct = tt;
    shorter = refl;
  }

  distinct_keys :
      (j k : Bytes) (v : V) (l : List (Bytes × V))
      → find j l ≡ none
      → find k l ≡ some v
      → eq_bytes j k ≡ false
  distinct_keys j k v l new held = elim (Bool-cases (eq_bytes j k)) [
    | inl e ↦ let same : j ≡ k = (eq_bytes_iff j k).0 e in absurd cc
    | inr e ↦ e
  ]

  find_behind :
      (j k : Bytes) (v : V) (l : List (Bytes × V))
      → eq_bytes j k ≡ false
      → find k ((j, v) ∷ l) ≡ find k l
  unfolding find
  find_behind j k v l ne = ground arith

  others_behind :
      (j key k : Bytes) (v : V) (l1 l : List (Bytes × V))
      → eq_bytes j key ≡ false
      → find k l1 ≡ (if eq_bytes key k then none else find k l)
      → find k ((j, v) ∷ l1) ≡ (if eq_bytes key k then none else find k ((j, v) ∷ l))
  unfolding find
  others_behind j key k v l1 l ne h =
      ground (arith, eq_bytes_iff j key, eq_bytes_iff j k, eq_bytes_iff key k)

  -- The key of the last entry is none before it.
  cons-Evicted :
      (b m : ℕ) (j : Bytes) (v : V) (map : List (Bytes × ℕ)) (n : ℕ × Bytes) (o : List (ℕ × Bytes))
      (e : Bytes × V) (l : List (Bytes × V))
      → m < b
      → find j map ≡ some m
      → find j (e ∷ l) ≡ none
      → Evicted m map (n ∷ o) (e ∷ l)
      → Evicted b map ((m, j) ∷ n ∷ o) ((j, v) ∷ e ∷ l)
  unfolding pop_back without_last
  cons-Evicted b m j v map n o e l lt i new h =
      let ne : eq_bytes j h.key ≡ false = distinct_keys j h.key h.value (e ∷ l) new h.held in
      record {
        key = h.key;
        value = h.value;
        rest = (m, j) ∷ h.rest;
        popped = rw (h.popped, pop_back) refl;
        aligned = (refl, i, h.aligned);
        below = (lt, h.below);
        held = find_behind j h.key v (e ∷ l) ne ∙ h.held;
        others = λ k. others_behind j h.key k v (without_last (e ∷ l)) (e ∷ l) ne (h.others k);
        distinct = (h.others j ∙ ground (arith, new), h.distinct);
        shorter = ap suc h.shorter;
      }

  pub evicted :
      (b : ℕ) (map : List (Bytes × ℕ)) (o : List (ℕ × Bytes)) (l : List (Bytes × V))
      → Below b o
      → Distinct l
      → Aligned map o l
      → 0 < length l
      → Evicted b map o l
  evicted b map [] [] h d a pos = absurd (omega arith)
  evicted b map [] (e ∷ l) h d a pos = absurd a
  evicted b map (n ∷ o) [] h d a pos = absurd a
  evicted b map ((m, q) ∷ []) ((j, v) ∷ []) h d a pos =
      subst (λ x. Evicted b map ((m, x) ∷ []) ((j, v) ∷ [])) (sym a.0) (last-Evicted b m j v map)
  evicted b map ((m, q) ∷ []) ((j, v) ∷ e ∷ l) h d a pos = absurd a.2
  evicted b map ((m, q) ∷ n ∷ o) ((j, v) ∷ []) h d a pos = absurd a.2
  evicted b map ((m, q) ∷ n ∷ o) ((j, v) ∷ e ∷ l) h d a pos =
      subst (λ x. Evicted b map ((m, x) ∷ n ∷ o) ((j, v) ∷ e ∷ l)) (sym a.0)
        (cons-Evicted b m j v map n o e l h.0 a.1 d.0
          (evicted m map (n ∷ o) (e ∷ l) h.1 d.1 a.2 (omega arith)))
