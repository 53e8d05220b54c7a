-- ===== src/Service/Attempt.antt =====
-- One attempt of `operator()` at a Cypher request: the cache, the lexer and the parser, the executor,
-- and the commit.
use tsurugi_graph.Base.{ℕ, Bool, true, false, Option, none, some, [], Bytes}
use tsurugi_graph.Ast.{Statement}
use tsurugi_graph.Parser.Monad.{ok, failed, out_of_fuel}
use tsurugi_graph.Parser.Clauses.{parse_query}
use tsurugi_graph.QueryCache.Cache.{Cache, get, put}
use tsurugi_graph.Kvs.{Kvs}
use tsurugi_graph.Storage.State.{World}
use tsurugi_graph.Executor.State.{Executor, Status}
use tsurugi_graph.Executor.Update.{Pending}
use tsurugi_graph.Executor.Run.{Outcome, execute}
use tsurugi_graph.Service.Retry.{
  Attempt, begin_failed, execution_failed, threw, executed, StatusCode, status_ok,
}

abbrev pub new_executor : {S : Type 0} → World S → Executor S
new_executor w = record { world = w; context = []; context_labels = []; unwind_context = [] }

-- `rollback` is what an abort leaves of the database at the begin and the one now; `out_of_range` is
-- the text of the exception of `std::string`.
module _ {S : Type 0} (kvs : Kvs S) (stod : Bytes → Option ℕ) (iteration : Pending → Pending)
    (concurrency : ℕ) (rollback : S → S → S) (out_of_range : Bytes) where
  abbrev pub rolled_back : World S → World S → World S
  rolled_back w0 w = record w { db = rollback w0.db w.db }

  -- A commit that fails leaves the database as an abort does.
  unfoldable pub commit_outcome : StatusCode → World S → World S → World S
  commit_outcome status_ok w0 w = w
  commit_outcome code w0 w = rolled_back w0 w

  unfoldable pub finish : StatusCode → World S → Outcome S → Attempt × World S
  unfolding commit_outcome
  finish code w0 (Status.done, result, ex) = (executed result code, commit_outcome code w0 ex.world)
  finish code w0 (Status.failed, result, ex) = (execution_failed, rolled_back w0 ex.world)
  finish code w0 (Status.threw, result, ex) = (threw out_of_range, rolled_back w0 ex.world)

  -- A statement in a new executor, and the commit with its code.
  unfoldable pub run_statement : ℕ → StatusCode → Statement → World S → Attempt × World S
  unfolding finish
  run_statement tx code stmt w =
      finish code w (execute kvs stod iteration concurrency tx stmt [] (new_executor w))

  -- The parsed statement goes into the cache. `none` is undefined behaviour.
  unfoldable pub parse_and_run :
      ℕ
      → StatusCode
      → Bytes
      → Cache Statement
      → World S
      → Option (Attempt × Cache Statement × World S)
  unfolding run_statement
  parse_and_run tx code query c w = elim (parse_query query) [
    | out_of_fuel ↦ none
    | failed msg ↦ some (threw msg, c, rolled_back w w)
    | ok stmt ↦ elim (put query stmt c) [
      | none ↦ none
      | some c1 ↦ let (a, w1) = run_statement tx code stmt w in some (a, c1, w1)
    ]
  ]

  -- The flag is the result of `begin`.
  unfoldable pub attempt :
      Bool
      → ℕ
      → StatusCode
      → Bytes
      → Cache Statement
      → World S
      → Option (Attempt × Cache Statement × World S)
  unfolding parse_and_run
  attempt false tx code query c w = some (begin_failed, c, w)
  attempt true tx code query c w = elim (get query c) [
    | none ↦ none
    | some (none, c1) ↦ parse_and_run tx code query c1 w
    | some (some stmt, c1) ↦ let (a, w1) = run_statement tx code stmt w in some (a, c1, w1)
  ]
