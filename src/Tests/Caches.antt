-- ===== src/Tests/Caches.antt =====
-- Calls on a query cache.
use tsurugi_graph.Base.{
  ℕ, ◌≡◌, refl, some, none, List, [], ◌∷◌, bytes, arith, find, erase, eq_bytes,
}
use tsurugi_graph.QueryCache.Cache.{init}
use tsurugi_graph.QueryCache.Calls.{
  Call, gets, puts, clears, sizes, statement, number, nothing, run_calls, answers,
  run_calls_refines,
}

-- With room for one entry: the second query takes the place of the first.
abbrev two_queries : List (Call ℕ)
two_queries =
    puts (bytes "a") 1
    ∷ puts (bytes "b") 2
    ∷ gets (bytes "a")
    ∷ gets (bytes "b")
    ∷ sizes
    ∷ clears
    ∷ gets (bytes "b")
    ∷ []

answers-two_queries :
    answers 1 two_queries []
    ≡ nothing
      ∷ nothing
      ∷ statement none
      ∷ statement (some 2)
      ∷ number 1
      ∷ nothing
      ∷ statement none
      ∷ []
unfolding answers find erase eq_bytes
answers-two_queries = refl

run_calls_refines_example : run_calls two_queries (init 1) ≡ some (answers 1 two_queries [])
run_calls_refines_example = run_calls_refines 1 two_queries (omega arith)
