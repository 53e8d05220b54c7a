-- ===== src/Base/Sorting.antt =====
-- `std::sort` on ids, and `std::set_intersection` of two sorted ranges.
use Prim.Native.Nat.{ℕ}
use mathlib.Core.List.{List, [], ◌∷◌}
use tsurugi_graph.Base.Tests.{ltb, leb, if◌then◌else◌}

unfoldable pub insert_sorted : ℕ → List ℕ → List ℕ
insert_sorted x [] = x ∷ []
insert_sorted x (y ∷ ys) =
    let later = y ∷ insert_sorted x ys in if leb x y then x ∷ y ∷ ys else later

unfoldable pub sort : List ℕ → List ℕ
unfolding insert_sorted
sort [] = []
sort (x ∷ xs) = insert_sorted x (sort xs)

unfoldable pub set_intersection : List ℕ → List ℕ → List ℕ
set_intersection [] ys = []
set_intersection (x ∷ xs) [] = []
set_intersection (x ∷ xs) (y ∷ ys) =
    let skip_left = set_intersection xs (y ∷ ys) in
    let skip_right = set_intersection (x ∷ xs) ys in
    let both = x ∷ set_intersection xs ys in
    if ltb x y then skip_left else if ltb y x then skip_right else both
