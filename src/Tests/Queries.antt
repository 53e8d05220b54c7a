-- ===== src/Tests/Queries.antt =====
-- The query cache.
use tsurugi_graph.Base.{ℕ, ◌≡◌, refl, some, find, bytes}
use tsurugi_graph.QueryCache.Cache.{Cache, init, insert, put}

abbrev one_query : Cache ℕ
one_query = insert (bytes "q") 5 (init 2)

put_one : put (bytes "q") 5 (init 2) ≡ some one_query
unfolding put init find
put_one = refl
