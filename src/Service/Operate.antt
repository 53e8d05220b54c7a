-- ===== src/Service/Operate.antt =====
-- `operator()` on one request, of a service that `start` gave its resource.
pub mod Sequences
use tsurugi_graph.Base.{ℕ, Bool, true, false, Option, none, some, List, [], ◌∷◌, Bytes}
use tsurugi_graph.Ast.{Statement}
use tsurugi_graph.QueryCache.Cache.{Cache}
use tsurugi_graph.Kvs.{Kvs}
use tsurugi_graph.Storage.State.{Storage, World}
use tsurugi_graph.Executor.Update.{Pending}
use tsurugi_graph.Service.Retry.{Response}
use tsurugi_graph.Service.Lifecycle.{make_ltx_options}
use tsurugi_graph.Service.Reads.{ReadResponse, node_get, edge_get}
use tsurugi_graph.Service.Request.{Trial, serve}

-- The `oneof` of a request; `true` asks for a long transaction.
pub data Command : Type 0 where
  cypher : Bytes → Bool → Command
  get_node get_edge : ℕ → Command
  no_command : Command

-- What the store answers during a request: to the attempts at a query, with the options of the
-- transaction, and to the one transaction of a read, with the text of an exception.
pub record Answers : Type 0 where
  pub trials : List ℕ → ℕ → Trial
  pub begins : Bool
  pub tx : ℕ
  pub thrown : Option Bytes

-- The response: none for a payload that is no request, and an empty one for a request without a
-- command.
pub data Reply : Type 0 where
  no_reply empty_reply : Reply
  cypher_reply : Response → Reply
  read_reply : ReadResponse → Reply

-- A transaction without options is a short one, which reserves nothing.
abbrev pub options : Bool → Storage → List ℕ
options true st = make_ltx_options st
options false st = []

-- What `operator()` returns, the response, the cache and the world.
abbrev pub Operated : Type 0 → Type 0
Operated S = Option (Bool × Reply × Cache Statement × World S)

module _ {S : Type 0} (kvs : Kvs S) (stod : Bytes → Option ℕ) (iteration : Pending → Pending)
    (concurrency : ℕ) (rollback : S → S → S) (out_of_range : Bytes) where
  -- The command is what the payload is parsed to. `none` is undefined behaviour.
  unfoldable pub operate : Answers → Option Command → Cache Statement → World S → Operated S
  unfolding serve make_ltx_options
  operate a none c w = some (false, no_reply, c, w)
  operate a (some (cypher query ltx)) c w =
      elim (serve kvs stod iteration concurrency rollback out_of_range
        (a.trials (options ltx w.store)) query c w) [
          | none ↦ none
          | some (r, sleeps, c1, w1) ↦ some (true, cypher_reply r, c1, w1)
        ]
  operate a (some (get_node id)) c w =
      some (true, read_reply (node_get kvs a.tx a.thrown a.begins id w), c, w)
  operate a (some (get_edge id)) c w = elim (edge_get kvs a.tx a.thrown a.begins id w) [
    | none ↦ none
    | some r ↦ some (true, read_reply r, c, w)
  ]
  operate a (some no_command) c w = some (true, empty_reply, c, w)

  -- The requests that the service gets, each with what the store answers.
  unfoldable pub operate_all :
      List (Answers × Option Command)
      → Cache Statement
      → World S
      → Option (List (Bool × Reply) × Cache Statement × World S)
  unfolding operate
  operate_all [] c w = some ([], c, w)
  operate_all ((a, parsed) ∷ rs) c w = elim (operate a parsed c w) [
    | none ↦ none
    | some (ok, reply, c1, w1) ↦ elim (operate_all rs c1 w1) [
      | none ↦ none
      | some (replies, c2, w2) ↦ some ((ok, reply) ∷ replies, c2, w2)
    ]
  ]
