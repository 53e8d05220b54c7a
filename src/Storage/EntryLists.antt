-- ===== src/Storage/EntryLists.antt =====
-- What an entry of the property index holds: the ids of nodes, as a packed list.
use tsurugi_graph.Base.{
  ℕ, ◌≡◌, refl, sym, ap, ◌∙◌, inl, inr, Bool, true, false, not, Option, List, [], ◌∷◌, ◌++◌,
  append_assoc, append-nil, keep, Bytes, ◌==◌, if◌then◌else◌, Bool-cases, eq_bytes,
}
use tsurugi_graph.Keys.{to_key}
use tsurugi_graph.Records.{
  pack_ids, unpack_ids, All64, without, pack_ids-append, unpack_ids-pack_ids,
}
use tsurugi_graph.Storage.Index.Key.{build_prop_index_key}
use tsurugi_graph.Storage.Index.Write.{stored_text}

-- The entry at an index key holds these ids: no entry, or the packed list.
pub record Holds (o : Option Bytes) (ids : List ℕ) : Type 0 where
  pub packed : stored_text o ≡ pack_ids ids
  pub words : All64 ids

module _ (stod : Bytes → Option ℕ) (label : Bytes) (key : Bytes) (id : ℕ) where
  -- The node's id, once for each property whose index key is `key`.
  unfoldable pub hits : List (Bytes × Bytes) → List ℕ
  hits [] = []
  hits ((k, v) ∷ es) =
      if eq_bytes (build_prop_index_key stod label k v) key then id ∷ hits es else hits es

  -- The ids that stay when the node's properties are taken out of the entry at `key`.
  unfoldable pub left : List (Bytes × Bytes) → List ℕ → List ℕ
  left [] ids = ids
  left ((k, v) ∷ es) ids =
      left es (if eq_bytes (build_prop_index_key stod label k v) key then without id ids else ids)

pub pack_ids-snoc : (ids : List ℕ) (id : ℕ) → pack_ids ids ++ to_key id ≡ pack_ids (ids ++ id ∷ [])
unfolding pack_ids
pack_ids-snoc ids id =
    ap (◌++◌ (pack_ids ids)) (sym (append-nil (to_key id))) ∙ sym (pack_ids-append ids (id ∷ []))

pub append_if :
    (b : Bool) (ids : List ℕ) (id : ℕ) (rest : List ℕ)
    → (if b then ids ++ id ∷ [] else ids) ++ rest ≡ ids ++ (if b then id ∷ rest else rest)
append_if true ids id rest = append_assoc ids (id ∷ []) rest
append_if false ids id rest = refl

pub no_ids : (ids : List ℕ) → All64 ids → pack_ids ids ≡ [] → ids ≡ []
unfolding unpack_ids
no_ids ids words e = sym (unpack_ids-pack_ids ids words) ∙ ap unpack_ids e

pub All64-without : (id : ℕ) (ids : List ℕ) → All64 ids → All64 (without id ids)
unfolding without keep
All64-without id [] h = tt
All64-without id (x ∷ xs) h = elim (Bool-cases (not (x == id))) [
  | inl stays ↦ rw stays (h.0, All64-without id xs h.1)
  | inr goes ↦ rw goes (All64-without id xs h.1)
]
