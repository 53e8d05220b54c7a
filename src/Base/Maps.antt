-- ===== src/Base/Maps.antt =====
-- `std::map` and `std::unordered_map` with text keys, as association lists. The order of the entries
-- plays no part where these are used.
use mathlib.Core.List.{List, [], ◌∷◌}
use mathlib.Core.Option.{Option, none, some}
use tsurugi_graph.Base.Tests.{if◌then◌else◌, ◌==◌}
use Prim.Native.Nat.{ℕ}
use mathlib.Core.Bool.{Bool, false, ◌||◌}
use mathlib.Core.Path.{◌≡◌, refl}
use native.Mathlib.Omega.{arith}
use tsurugi_graph.Base.Text.{Bytes, eq_bytes}

module _ {ℓ} {V : Type ℓ} where
  unfoldable pub find : Bytes → List (Bytes × V) → Option V
  find k [] = none
  find k ((j, v) ∷ m) = if eq_bytes j k then some v else find k m

  unfoldable pub erase : Bytes → List (Bytes × V) → List (Bytes × V)
  erase k [] = []
  erase k ((j, v) ∷ m) = let rest = erase k m in if eq_bytes j k then rest else (j, v) ∷ rest

  -- `map[k] = v`
  abbrev pub assign : Bytes → V → List (Bytes × V) → List (Bytes × V)
  assign k v m = (k, v) ∷ erase k m

-- The same with numbers as keys.
module _ {ℓ} {V : Type ℓ} where
  unfoldable pub find_id : ℕ → List (ℕ × V) → Option V
  find_id k [] = none
  find_id k ((j, v) ∷ m) = if j == k then some v else find_id k m

  -- `map[k] = v`: in the place of the old value, or at the end.
  unfoldable pub assign_id : ℕ → V → List (ℕ × V) → List (ℕ × V)
  assign_id k v [] = (k, v) ∷ []
  assign_id k v ((j, w) ∷ m) =
      let rest = (j, w) ∷ assign_id k v m in if j == k then (k, v) ∷ m else rest

  pub find_id-assign_id :
      (k j : ℕ) (v : V) (m : List (ℕ × V))
      → find_id j (assign_id k v m) ≡ (if k == j then some v else find_id j m)
  unfolding find_id assign_id
  find_id-assign_id k j v [] = refl
  find_id-assign_id k j v ((i, w) ∷ m) = ground (arith, find_id-assign_id k j v m)

unfoldable pub contains : ℕ → List ℕ → Bool
contains x [] = false
contains x (y ∷ ys) = y == x || contains x ys

-- The name stands in the list.
unfoldable pub has : Bytes → List Bytes → Bool
has n [] = false
has n (m ∷ ms) = eq_bytes m n || has n ms
