-- ===== src/Executor/Return/Cover.antt =====
-- The variables of RETURN that are read for a batch, and the ids in it.
use tsurugi_graph.Base.{
  has, ℕ, zero, suc, ◌+◌, ◌≤◌, ◌<◌, ◌≡◌, refl, ◌∙◌, inl, inr, true, ◌||◌, some, List, [], ◌∷◌,
  arith, Bytes, eq_bytes, eq_bytes_iff, eq_bytes_refl, contains, take, drop, Bool-cases, ==_refl,
}
use tsurugi_graph.Ast.{ReturnItem}
use tsurugi_graph.Executor.Return.{variable_of, insert_name, needed_vars, get_elem?}

has-insert_name :
    (n m : Bytes) (ms : List Bytes) → has n (insert_name m ms) ≡ (eq_bytes m n || has n ms)
unfolding has insert_name
has-insert_name n m [] = refl
has-insert_name n m (k ∷ ms) =
    ground (arith, has-insert_name n m ms, eq_bytes_iff k m, eq_bytes_iff k n, eq_bytes_iff m n)

has-needed_vars_kept :
    (n : Bytes) (items : List ReturnItem) (names : List Bytes)
    → has n names ≡ true
    → has n (needed_vars items names) ≡ true
unfolding needed_vars
has-needed_vars_kept n [] names h = h
has-needed_vars_kept n (i ∷ is) names h =
    has-needed_vars_kept n is _ (ground (arith, h, has-insert_name n (variable_of i.expr) names))

-- Every variable of the items is found in the names, or is empty.
unfoldable pub Covers : List Bytes → List ReturnItem → Type 0
Covers names [] = Unit
Covers names (i ∷ is) =
    (eq_bytes (variable_of i.expr) [] || has (variable_of i.expr) names ≡ true) × Covers names is

head_covered :
    (i : ReturnItem) (is : List ReturnItem) (names : List Bytes)
    → eq_bytes (variable_of i.expr) [] || has (variable_of i.expr) (needed_vars (i ∷ is) names)
      ≡ true
unfolding needed_vars
head_covered i is names = elim (Bool-cases (eq_bytes (variable_of i.expr) [])) [
  | inl e ↦ rw e refl
  | inr e ↦
      let n = variable_of i.expr in
      let there : has n (insert_name n names) ≡ true =
        has-insert_name n n names ∙ rw (eq_bytes_refl n) refl in
      rw e (has-needed_vars_kept n is (insert_name n names) there)
]

pub needed_vars-Covers :
    (items : List ReturnItem) (names : List Bytes) → Covers (needed_vars items names) items
unfolding Covers needed_vars
needed_vars-Covers [] names = tt
needed_vars-Covers (i ∷ is) names = (head_covered i is names, needed_vars-Covers is _)

pub contains-slice :
    (ids : List ℕ) (start count row id : ℕ)
    → get_elem? ids row ≡ some id
    → start ≤ row
    → row < start + count
    → contains id (take count (drop start ids)) ≡ true
unfolding get_elem? contains
contains-slice [] start count row id e h k = absurd (ground arith)
contains-slice (x ∷ xs) zero zero row id e h k = absurd (omega arith)
contains-slice (x ∷ xs) zero (suc count) zero id e h k = ground (arith, ==_refl id)
contains-slice (x ∷ xs) zero (suc count) (suc row) id e h k =
    let rest = contains-slice xs zero count row id e (omega arith) (omega arith) in ground arith
contains-slice (x ∷ xs) (suc start) count zero id e h k = absurd (omega arith)
contains-slice (x ∷ xs) (suc start) count (suc row) id e h k =
    contains-slice xs start count row id e (omega arith) (omega arith)
