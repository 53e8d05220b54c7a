-- ===== src/Executor/Return/Rows.antt =====
-- The batches of RETURN, against reading each node by itself.
use tsurugi_graph.Base.{
  has, ℕ, zero, suc, ◌+◌, ◌-◌, ◌≤◌, ◌<◌, ◌≡◌, refl, sym, ap, ◌∙◌, ◌⊎◌, inl, inr, Bool, true, false,
  ◌||◌, Option, none, some, List, [], ◌∷◌, ◌++◌, arith, Bytes, if◌then◌else◌, eq_bytes,
  eq_bytes_iff, find, find_id, contains, take, drop, ltb, Bool-cases, Option-cases, append_assoc,
}
use mathlib.Core.Path.{subst}
use tsurugi_graph.Ast.{
  Expression, literal, variable, property_access, binary, list_literal, map_literal, ReturnItem,
}
use tsurugi_graph.Kvs.{Kvs}
use tsurugi_graph.Storage.State.{World, is_open}
use tsurugi_graph.Storage.Nodes.{get_nodes_batch}
use tsurugi_graph.Executor.State.{Executor, or_empty, ids_of, batch_size}
use tsurugi_graph.Executor.Where.{map_of}
use tsurugi_graph.Executor.Where.Batches.{record_of, map_of_read}
use tsurugi_graph.Executor.Return.{
  variable_of, needed_vars, max_rows, get_elem?, item_value, item_text, items_text, row_text,
  rows_text, batch_cache, cached, batches_text, execute_return,
}
use tsurugi_graph.Executor.Return.Cover.{Covers, needed_vars-Covers, contains-slice}

List-cases {ℓ} : {A : Type ℓ} (xs : List A) → (xs ≡ []) ⊎ ((y : A) × (ys : List A) × (xs ≡ y ∷ ys))
List-cases [] = inl refl
List-cases (y ∷ ys) = inr (y, ys, refl)

module _ {S : Type 0} (kvs : Kvs S) (tx : ℕ) where
  -- What is read for an id by itself.
  abbrev pub direct : World S → Bytes → ℕ → Option Bytes
  direct w name id = record_of kvs w.store w.db id

  batch_read :
      (id : ℕ) (ids : List ℕ) (w : World S)
      → is_open tx w.store.nodes_handle ≡ true
      → contains id ids ≡ true
      → find_id id (map_of [] (or_empty (get_nodes_batch kvs tx ids w))) ≡ direct w [] id
  unfolding get_nodes_batch find_id
  batch_read id ids w op k = rw op (map_of_read kvs w.store w.db id ids [] refl k)

  other_slice :
      (n m : Bytes) (start count id : ℕ) (ex : Executor S)
      → take count (drop start (ids_of m ex)) ≡ []
      → contains id (take count (drop start (ids_of n ex))) ≡ true
      → eq_bytes m n ≡ false
  unfolding contains
  other_slice n m start count id ex e k = elim (Bool-cases (eq_bytes m n)) [
    | inr ne ↦ ne
    | inl same ↦
        let eq : m ≡ n = (eq_bytes_iff m n).0 same in
        let empty : contains id [] ≡ true =
          subst (λ l. contains id l ≡ true)
            (ap (λ v. take count (drop start (ids_of v ex))) (sym eq) ∙ e) k in
        absurd (ground arith)
  ]

  cached-batch_cache :
      (n : Bytes) (names : List Bytes) (start count id : ℕ) (ex : Executor S)
      → is_open tx ex.world.store.nodes_handle ≡ true
      → has n names ≡ true
      → contains id (take count (drop start (ids_of n ex))) ≡ true
      → cached kvs tx (batch_cache kvs tx names start count ex) n id ≡ direct ex.world n id
  unfolding cached batch_cache has find
  cached-batch_cache n [] start count id ex op h k = absurd (ground arith)
  cached-batch_cache n (m ∷ ms) start count id ex op h k =
      elim (List-cases (take count (drop start (ids_of m ex)))) [
        | inl e ↦
            let ne : eq_bytes m n ≡ false = other_slice n m start count id ex e k in
            rw (e, batch_cache) (cached-batch_cache n ms start count id ex op (ground arith) k)
        | inr (x, xs, e) ↦
            rw (e, batch_cache)
              (elim (Bool-cases (eq_bytes m n)) [
                | inl same ↦
                    let eq : m ≡ n = (eq_bytes_iff m n).0 same in
                    let there : contains id (x ∷ xs) ≡ true =
                      subst (λ l. contains id l ≡ true)
                        (ap (λ v. take count (drop start (ids_of v ex))) (sym eq) ∙ e) k in
                    rw same (batch_read id (x ∷ xs) ex.world op there)
                | inr ne ↦ rw ne (cached-batch_cache n ms start count id ex op (ground arith) k)
              ])
      ]

  -- The rows of a batch, whose variables are all read, and none of which is empty.
  module _ (ex : Executor S) (names : List Bytes) (start count : ℕ)
      (op : is_open tx ex.world.store.nodes_handle ≡ true) (named : find [] ex.context ≡ none) where
    abbrev in_batch : Bytes → ℕ → Option Bytes
    in_batch = cached kvs tx (batch_cache kvs tx names start count ex)

    unnamed : (row id : ℕ) → get_elem? (ids_of [] ex) row ≡ some id → ⊥
    unfolding get_elem?
    unnamed row id e = ground arith

    in_batch-direct :
        (n : Bytes) (row id : ℕ)
        → start ≤ row
        → row < start + count
        → eq_bytes n [] || has n names ≡ true
        → get_elem? (ids_of n ex) row ≡ some id
        → in_batch n id ≡ direct ex.world n id
    in_batch-direct n row id h k c e = elim (Bool-cases (eq_bytes n [])) [
      | inl empty ↦
          let none_left : get_elem? (ids_of [] ex) row ≡ some id =
            subst (λ v. get_elem? (ids_of v ex) row ≡ some id) ((eq_bytes_iff n []).0 empty) e in
          absurd (unnamed row id none_left)
      | inr ne ↦
          cached-batch_cache n names start count id ex op (ground arith)
            (contains-slice (ids_of n ex) start count row id e h k)
    ]

    item_value-direct :
        (e : Expression) (row : ℕ)
        → start ≤ row
        → row < start + count
        → eq_bytes (variable_of e) [] || has (variable_of e) names ≡ true
        → item_value kvs tx in_batch ex row e ≡ item_value kvs tx (direct ex.world) ex row e
    unfolding item_value variable_of
    item_value-direct (variable n) row h k c = elim (Option-cases (get_elem? (ids_of n ex) row)) [
      | inl e ↦ rw (e, item_value) refl
      | inr (id, e) ↦ rw (e, item_value) (rw (in_batch-direct n row id h k c e) refl)
    ]
    item_value-direct (property_access n p) row h k c =
        elim (Option-cases (get_elem? (ids_of n ex) row)) [
          | inl e ↦ rw (e, item_value) refl
          | inr (id, e) ↦ rw (e, item_value) (rw (in_batch-direct n row id h k c e) refl)
        ]
    item_value-direct (literal v s) row h k c = refl
    item_value-direct (binary l o r) row h k c = refl
    item_value-direct (list_literal es) row h k c = refl
    item_value-direct (map_literal es) row h k c = refl

    expression_text-direct :
        (e : Expression) (alias : Bytes) (row : ℕ)
        → start ≤ row
        → row < start + count
        → eq_bytes (variable_of e) [] || has (variable_of e) names ≡ true
        → item_text kvs tx in_batch ex row (record { expr = e; alias = alias })
          ≡ item_text kvs tx (direct ex.world) ex row (record { expr = e; alias = alias })
    unfolding item_text
    expression_text-direct (variable n) alias row h k c =
        rw (item_value-direct (variable n) row h k c) refl
    expression_text-direct (property_access n p) alias row h k c =
        rw (item_value-direct (property_access n p) row h k c) refl
    expression_text-direct (literal v s) alias row h k c = refl
    expression_text-direct (binary l o r) alias row h k c = refl
    expression_text-direct (list_literal es) alias row h k c = refl
    expression_text-direct (map_literal es) alias row h k c = refl

    items_text-direct :
        (first : Bool) (items : List ReturnItem) (row : ℕ)
        → start ≤ row
        → row < start + count
        → Covers names items
        → items_text kvs tx in_batch ex row first items
          ≡ items_text kvs tx (direct ex.world) ex row first items
    unfolding items_text Covers
    items_text-direct first [] row h k c = refl
    items_text-direct first (i ∷ is) row h k c =
        rw (expression_text-direct i.expr i.alias row h k c.0)
          (rw (items_text-direct false is row h k c.1) refl)

    rows_text-direct :
        (items : List ReturnItem) (row n : ℕ)
        → start ≤ row
        → row + n ≤ start + count
        → Covers names items
        → rows_text kvs tx in_batch ex items row n
          ≡ rows_text kvs tx (direct ex.world) ex items row n
    unfolding rows_text row_text
    rows_text-direct items row zero h k c = refl
    rows_text-direct items row (suc n) h k c =
        rw (items_text-direct true items row h (omega arith) c)
          (rw (rows_text-direct items (suc row) n (omega arith) (omega arith) c) refl)

  rows_text-add :
      (p : Bytes → ℕ → Option Bytes) (ex : Executor S) (items : List ReturnItem) (row a b : ℕ)
      → rows_text kvs tx p ex items row a ++ rows_text kvs tx p ex items (row + a) b
        ≡ rows_text kvs tx p ex items row (a + b)
  unfolding rows_text
  rows_text-add p ex items row zero b =
      let e : row + 0 ≡ row = omega arith in let f : 0 + b ≡ b = omega arith in rw (e, f) refl
  rows_text-add p ex items row (suc a) b =
      let e : row + suc a ≡ suc row + a = omega arith in
      let f : suc a + b ≡ suc (a + b) = omega arith in
      rw (e, f)
        (append_assoc (row_text kvs tx p ex items row) (rows_text kvs tx p ex items (suc row) a)
            (rows_text kvs tx p ex items (suc row + a) b)
          ∙ ap (◌++◌ (row_text kvs tx p ex items row)) (rows_text-add p ex items (suc row) a b))

  batches_text-direct :
      (fuel : ℕ) (ex : Executor S) (items : List ReturnItem) (names : List Bytes) (start left : ℕ)
      → is_open tx ex.world.store.nodes_handle ≡ true
      → find [] ex.context ≡ none
      → Covers names items
      → left ≤ fuel
      → batches_text kvs tx fuel ex items names start left
        ≡ rows_text kvs tx (direct ex.world) ex items start left
  unfolding batches_text rows_text
  batches_text-direct zero ex items names start zero op named c h = refl
  batches_text-direct zero ex items names start (suc left) op named c h = absurd (omega arith)
  batches_text-direct (suc fuel) ex items names start zero op named c h = refl
  batches_text-direct (suc fuel) ex items names start (suc left) op named c h =
      let count = if ltb batch_size (suc left) then batch_size else suc left in
      let small : count ≤ suc left = ground arith in
      let pos : 0 < count = ground arith in
      let all : count + (suc left - count) ≡ suc left = omega arith in
      rw
        (rows_text-direct ex names start count op named items start count (omega arith)
          (omega arith) c)
        (rw
          (batches_text-direct fuel ex items names (start + count) (suc left - count) op named c
            (omega arith))
          (rows_text-add (direct ex.world) ex items start count (suc left - count)
            ∙ ap (rows_text kvs tx (direct ex.world) ex items start) all))

  -- With an open transaction and an open table of nodes, and no variable with an empty name, the
  -- result of RETURN is one array of a row for each position up to the longest variable, at least
  -- one, each with the node that its id has in the table: the batches play no part.
  pub execute_return-rows_text :
      (items : List ReturnItem) (ex : Executor S)
      → is_open tx ex.world.store.nodes_handle ≡ true
      → find [] ex.context ≡ none
      → execute_return kvs tx items ex
        ≡ b'[' ∷ (rows_text kvs tx (direct ex.world) ex items 0 (max_rows items ex 1) ++ b']' ∷ [])
  unfolding execute_return
  execute_return-rows_text items ex op named =
      rw
        (batches_text-direct (max_rows items ex 1) ex items (needed_vars items []) 0
          (max_rows items ex 1) op named (needed_vars-Covers items []) (omega arith))
        refl
