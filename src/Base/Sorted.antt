-- ===== src/Base/Sorted.antt =====
-- What `sort` and `set_intersection` hold.
use Prim.Native.Nat.{ℕ, ◌≤◌, ◌<◌}
use mathlib.Core.Path.{◌≡◌, refl, ◌∙◌}
use mathlib.Core.Logic.{inl, inr}
use mathlib.Core.Bool.{false, ◌&&◌, ◌||◌}
use mathlib.Core.List.{List, [], ◌∷◌}
use native.Mathlib.Omega.{arith}
use tsurugi_graph.Base.Tests.{ltb, leb, ◌==◌, Bool-cases}
use tsurugi_graph.Base.Maps.{contains}
use tsurugi_graph.Base.Sorting.{insert_sorted, sort, set_intersection}

-- The list rises, from `low` on.
abbrev pub Rises : ℕ → List ℕ → Type 0
Rises low [] = Unit
Rises low (x ∷ xs) = (low ≤ x) × Rises x xs

contains-insert_sorted :
    (z x : ℕ) (ys : List ℕ) → contains z (insert_sorted x ys) ≡ (x == z || contains z ys)
unfolding contains insert_sorted
contains-insert_sorted z x [] = refl
contains-insert_sorted z x (y ∷ ys) = ground (arith, contains-insert_sorted z x ys)

pub contains-sort : (z : ℕ) (xs : List ℕ) → contains z (sort xs) ≡ contains z xs
unfolding contains sort
contains-sort z [] = refl
contains-sort z (x ∷ xs) = contains-insert_sorted z x (sort xs) ∙ rw (contains-sort z xs) refl

insert_sorted-Rises :
    (low x : ℕ) (ys : List ℕ) → low ≤ x → Rises low ys → Rises low (insert_sorted x ys)
unfolding insert_sorted
insert_sorted-Rises low x [] h r = (h, tt)
insert_sorted-Rises low x (y ∷ ys) h r = elim (Bool-cases (leb x y)) [
  | inl e ↦ rw e (h, (ground arith, r.1))
  | inr e ↦ rw e (r.0, insert_sorted-Rises y x ys (ground arith) r.1)
]

pub sort-Rises : (xs : List ℕ) → Rises 0 (sort xs)
unfolding sort
sort-Rises [] = tt
sort-Rises (x ∷ xs) = insert_sorted-Rises 0 x (sort xs) (omega arith) (sort-Rises xs)

below_Rises : (z low : ℕ) (xs : List ℕ) → Rises low xs → z < low → contains z xs ≡ false
unfolding contains
below_Rises z low [] r h = refl
below_Rises z low (x ∷ xs) r h = ground (arith, r.0, below_Rises z x xs r.1 (omega (arith, r.0)))

pub contains-set_intersection :
    (z a b : ℕ) (xs ys : List ℕ)
    → Rises a xs
    → Rises b ys
    → contains z (set_intersection xs ys) ≡ (contains z xs && contains z ys)
unfolding contains set_intersection
contains-set_intersection z a b [] ys r s = refl
contains-set_intersection z a b (x ∷ xs) [] r s = ground arith
contains-set_intersection z a b (x ∷ xs) (y ∷ ys) r s = elim (Bool-cases (ltb x y)) [
  | inl e ↦ rw e (
      contains-set_intersection z x b xs (y ∷ ys) r.1 s
      ∙ ground (arith, λ (h : z < y). below_Rises z y ys s.1 h))
  | inr e ↦ elim (Bool-cases (ltb y x)) [
    | inl f ↦
        rw (e, f)
          (contains-set_intersection z a y (x ∷ xs) ys r s.1
            ∙ ground (arith, λ (h : z < x). below_Rises z x xs r.1 h))
    | inr f ↦ rw (e, f) (ground (arith, contains-set_intersection z x y xs ys r.1 s.1))
  ]
]
