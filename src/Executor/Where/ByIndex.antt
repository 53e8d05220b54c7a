-- ===== src/Executor/Where/ByIndex.antt =====
-- WHERE by an index: the ids that the variable had and the index gives.
use tsurugi_graph.Base.{
  ℕ, ◌≡◌, refl, ◌∙◌, ◌&&◌, Option, some, List, Bytes, contains, sort, contains-sort, sort-Rises,
  contains-set_intersection,
}
use tsurugi_graph.Ast.{WhereClause}
use tsurugi_graph.Kvs.{Kvs}
use tsurugi_graph.Executor.State.{Executor}
use tsurugi_graph.Executor.Where.{comparison_of, index_lookup, filtered_ids}

module _ {S : Type 0} (kvs : Kvs S) (stod : Bytes → Option ℕ) (concurrency tx : ℕ) where
  -- Where the index is used for a WHERE clause and gives ids, an id is kept if and only if the
  -- variable had it and the index gives it.
  pub contains-filtered_ids :
      (w : WhereClause) (ids results : List ℕ) (ex : Executor S) (id : ℕ)
      → index_lookup kvs stod concurrency tx w (comparison_of stod w).text ex ≡ some results
      → contains id (filtered_ids kvs stod concurrency tx w ids ex)
        ≡ (contains id ids && contains id results)
  unfolding filtered_ids
  contains-filtered_ids w ids results ex id found =
      rw (found, filtered_ids)
        (contains-set_intersection id 0 0 (sort ids) (sort results) (sort-Rises ids)
            (sort-Rises results)
          ∙ rw (contains-sort id ids) (rw (contains-sort id results) refl))
