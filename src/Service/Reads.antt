-- ===== src/Service/Reads.antt =====
-- The requests for a node and for an edge in `operator()`.
use tsurugi_graph.Base.{ℕ, Bool, true, false, Option, none, some, Bytes, bytes, ◌++◌}
use tsurugi_graph.Kvs.{Kvs}
use tsurugi_graph.Records.{EdgeData, found, rejected, out_of_bounds}
use tsurugi_graph.Storage.State.{World}
use tsurugi_graph.Storage.Nodes.{get_node}
use tsurugi_graph.Storage.Edges.{get_edge}
use tsurugi_graph.Template.Normalize.{decimal}

pub data ReadResponse : Type 0 where
  node : ℕ → Bytes → ReadResponse
  edge : ℕ → EdgeData → ReadResponse
  error : ℕ → Bytes → ReadResponse

-- `thrown` is an exception that leaves the read or the commit, with its text: the error is then the
-- response, since it is one of a `oneof`. The result of the commit is only logged. An edge that is
-- read behind the end of its value is undefined behaviour, which is `none`.
module _ {S : Type 0} (kvs : Kvs S) (tx : ℕ) (thrown : Option Bytes) where
  abbrev pub or_thrown : Bytes → ReadResponse → ReadResponse
  or_thrown prefix r = elim thrown [ none ↦ r | some what ↦ error 3 (prefix ++ what) ]

  unfoldable pub node_get : Bool → ℕ → World S → ReadResponse
  node_get false id w = error 4 (bytes "Failed to begin transaction for node get")
  node_get true id w = or_thrown (bytes "Node get error: ") (elim (get_node kvs tx id w) [
    | some props ↦ node id props
    | none ↦ error 5 (bytes "Node not found: " ++ decimal 20 id)
  ])

  abbrev edge_not_found : ℕ → ReadResponse
  edge_not_found id = error 6 (bytes "Edge not found: " ++ decimal 20 id)

  unfoldable pub edge_get : Bool → ℕ → World S → Option ReadResponse
  edge_get false id w = some (error 4 (bytes "Failed to begin transaction for edge get"))
  edge_get true id w = elim (get_edge kvs tx id w) [
    | found e ↦ some (or_thrown (bytes "Edge get error: ") (edge id e))
    | rejected ↦ some (or_thrown (bytes "Edge get error: ") (edge_not_found id))
    | out_of_bounds ↦ none
  ]
