-- ===== src/Base/Lookup.antt =====
-- Maps with text keys: what is found in them, and how long they are.
use Prim.Native.Nat.{suc}
use mathlib.Core.Path.{◌≡◌, refl, sym, ap, ◌∙◌}
use mathlib.Core.Logic.{inl, inr}
use mathlib.Core.Option.{none, some}
use mathlib.Core.List.{List, [], ◌∷◌}
use native.Mathlib.Omega.{arith}
use tsurugi_graph.Base.Tests.{if◌then◌else◌, Bool-cases}
use tsurugi_graph.Base.Lists.{length}
use tsurugi_graph.Base.Text.{Bytes, eq_bytes, eq_bytes_iff, eq_bytes_refl}
use tsurugi_graph.Base.Maps.{find, erase, assign}

module _ {ℓ} {V : Type ℓ} where
  -- No key stands twice in the map.
  abbrev pub Distinct : List (Bytes × V) → Type ℓ
  Distinct [] = Unit
  Distinct ((j, v) ∷ m) = (find j m ≡ none) × Distinct m

  pub find-erase :
      (k j : Bytes) (m : List (Bytes × V))
      → find j (erase k m) ≡ (if eq_bytes k j then none else find j m)
  unfolding find erase
  find-erase k j [] = ground arith
  find-erase k j ((i, v) ∷ m) =
      ground (arith, eq_bytes_iff i k, eq_bytes_iff i j, eq_bytes_iff k j, find-erase k j m)

  pub find-assign :
      (k j : Bytes) (v : V) (m : List (Bytes × V))
      → find j (assign k v m) ≡ (if eq_bytes k j then some v else find j m)
  unfolding find
  find-assign k j v m = ground (arith, find-erase k j m)

  pub find-assign_self : (k : Bytes) (v : V) (m : List (Bytes × V)) → find k (assign k v m) ≡ some v
  unfolding find
  find-assign_self k v m = rw (eq_bytes_refl k) refl

  pub find-erase_self : (k : Bytes) (m : List (Bytes × V)) → find k (erase k m) ≡ none
  find-erase_self k m = find-erase k k m ∙ rw (eq_bytes_refl k) refl

  pub Distinct-erase : (k : Bytes) (m : List (Bytes × V)) → Distinct m → Distinct (erase k m)
  unfolding erase
  Distinct-erase k [] h = tt
  Distinct-erase k ((j, v) ∷ m) h = elim (Bool-cases (eq_bytes j k)) [
    | inl e ↦ rw e (Distinct-erase k m h.1)
    | inr e ↦ rw e (ground (arith, h.0, find-erase k j m), Distinct-erase k m h.1)
  ]

  pub erase_absent : (k : Bytes) (m : List (Bytes × V)) → find k m ≡ none → erase k m ≡ m
  unfolding find erase
  erase_absent k [] h = refl
  erase_absent k ((j, v) ∷ m) h = ground (arith, erase_absent k m)

  pub length-erase :
      (k : Bytes) (v : V) (m : List (Bytes × V))
      → Distinct m
      → find k m ≡ some v
      → suc (length (erase k m)) ≡ length m
  unfolding find erase
  length-erase k v [] d h = absurd (ground arith)
  length-erase k v ((j, w) ∷ m) d h = elim (Bool-cases (eq_bytes j k)) [
    | inl e ↦
        let same : j ≡ k = (eq_bytes_iff j k).0 e in
        let gone : find k m ≡ none = rw (sym same) d.0 in
        rw e (ap (λ (x : List (Bytes × V)). suc (length x)) (erase_absent k m gone))
    | inr e ↦ rw e (ap suc (length-erase k v m d.1 (ground arith)))
  ]
