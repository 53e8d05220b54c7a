-- ===== src/Tests/Statements.antt =====
-- Requests, the full scan and the guard of a transaction, on a store in memory.
use tsurugi_graph.Base.{
  Bytes, [], List, Option, none, some, arith, assign_id, bytes, eq_bytes, false, find_byte, find_id,
  has_prefix, keep, refl, ◌⊎◌, span, suc, true, zero, ℕ, ◌∷◌, ◌≡◌, find, Bool,
}
use tsurugi_graph.Keys.{to_key, be_bytes}
use tsurugi_graph.Kvs.{Memory, memory_kvs}
use tsurugi_graph.Ast.{Statement}
use tsurugi_graph.QueryCache.Cache.{Cache, get, put}
use tsurugi_graph.QueryCache.Cache
use tsurugi_graph.QueryCache.Representation.{init-Represents}
use tsurugi_graph.Storage.State.{World, is_open}
use tsurugi_graph.Storage.Index.Read.{ge, compare_double}
use tsurugi_graph.Executor.Update.{Pending}
use tsurugi_graph.Executor.Where.{Comparison, passes, full_scan}
use tsurugi_graph.Executor.Where.Batches.{full_scan-keep}
use tsurugi_graph.Service.Retry.{status_ok}
use tsurugi_graph.Service.Guard.{
  transaction_begin, transaction_borrow_handle, transaction_commit, transaction_abort,
  transaction_dispose, begins, commits, aborts, opened, begin, run_uses, destroy, lifetime,
}
use tsurugi_graph.Service.Calls.{OnlyEnds, lifetime-opened}
use tsurugi_graph.Service.Attempt.{attempt}
use tsurugi_graph.Service.Transparent.{IsSound, AgreesOn, attempt-attempt_uncached}
use tsurugi_graph.Service.Request.{Trial, serve, Served}
use tsurugi_graph.Service.Request.Effects.{
  RollsBack, IsMarked, served_run, IsAnsweredFrom, serve-IsAnsweredFrom,
}
use tsurugi_graph.Service.Operate.{
  Command, cypher, get_node, get_edge, no_command, Answers, operate_all,
}
use tsurugi_graph.Service.Operate.Sequences.{AreServed, SomeUndefined, operate_all-AreServed}
use tsurugi_graph.Tests.Tables.{start, stod}
use tsurugi_graph.Storage.Nodes.{create_node, index_new_node, get_nodes_batch}
use tsurugi_graph.Json.Value.{get_json_value}
use tsurugi_graph.Storage.Ids.{allocate_id}
use tsurugi_graph.Storage.Scan.{next_in, find_nodes_by_label_iter}
use tsurugi_graph.Executor.Hops.{execute_match}
use tsurugi_graph.Executor.Match.{match_first}
use tsurugi_graph.Executor.Return.{return_undefined, execute_return}
use tsurugi_graph.Executor.Run.{execute}
use tsurugi_graph.Parser.Clauses.{parse_query}
use tsurugi_graph.Parser.Monad.{looking_at}
use tsurugi_graph.Parser.Patterns.{parse_pattern_path}
use tsurugi_graph.Parser.Expressions.{parse_atom, parse_expression}
use tsurugi_graph.Lexer.{scan_identifier_or_keyword, scan_symbol, scan_token, tokenize}

abbrev query : Bytes
query = bytes "MATCH (n:P) RETURN n"

abbrev in_order : Pending → Pending
in_order p = p

-- An abort gives the database of the begin.
abbrev restore : Memory → Memory → Memory
restore s0 s = s0

restore-RollsBack : RollsBack memory_kvs restore
restore-RollsBack = record { restored = λ s0 s h k. refl }

abbrev empty_cache : Cache Statement
empty_cache = Cache.init 2

empty_cache-IsSound : IsSound empty_cache
unfolding Cache.init
empty_cache-IsSound = record {
  entries = [];
  represents = init-Represents 2 (omega arith);
  coherent = tt;
}

-- No transaction at the first attempt.
abbrev second_time : ℕ → Trial
second_time zero = record { begins = false; tx = 1; code = status_ok }
second_time (suc i) = record { begins = true; tx = 1; code = status_ok }

serve-IsAnsweredFrom_example :
    IsAnsweredFrom memory_kvs stod in_order 4 restore
      (bytes "range")
      restore-RollsBack
      start
      (serve memory_kvs stod in_order 4 restore (bytes "range") second_time query empty_cache start)
    ⊎ (IsMarked memory_kvs stod in_order 4 restore (bytes "range") restore-RollsBack (
          served_run memory_kvs stod in_order 4 restore
            (bytes "range")
            restore-RollsBack
            second_time
            query
            empty_cache
            start)
        × (serve memory_kvs stod in_order 4 restore
              (bytes "range")
              second_time
              query
              empty_cache
              start
            ≡ none))
serve-IsAnsweredFrom_example =
    serve-IsAnsweredFrom memory_kvs stod in_order 4 restore (bytes "range") restore-RollsBack
      second_time query empty_cache start empty_cache-IsSound

abbrev has_result : Served Memory → Bool
has_result none = false
has_result (some r) = true

-- The run of the query has no undefined behaviour.
serve-defined :
    has_result
      (serve memory_kvs stod in_order 4 restore (bytes "range") second_time query empty_cache start)
    ≡ true
unfolding Cache.init get put next_in find_nodes_by_label_iter execute_match match_first
    return_undefined execute_return execute serve memory_kvs eq_bytes span find keep parse_query
    looking_at parse_pattern_path parse_atom scan_identifier_or_keyword scan_symbol scan_token
    tokenize parse_expression
serve-defined = refl

abbrev answers : Answers
answers = record { trials = λ options. second_time; begins = true; tx = 1; thrown = none }

-- A payload that is no request, a long query, a read of each kind, and a request without a command.
abbrev requests : List (Answers × Option Command)
requests =
    (answers, none)
    ∷ (answers, some (cypher query true))
    ∷ (answers, some (get_node 1))
    ∷ (answers, some (get_edge 1))
    ∷ (answers, some no_command)
    ∷ []

operate_all-AreServed_example :
    AreServed memory_kvs stod in_order 4 restore
      (bytes "range")
      restore-RollsBack
      requests
      start
      (operate_all memory_kvs stod in_order 4 restore (bytes "range") requests empty_cache start)
    ⊎ (SomeUndefined memory_kvs stod in_order 4 restore
          (bytes "range")
          restore-RollsBack
          requests
          empty_cache
          start
        × (operate_all memory_kvs stod in_order 4 restore (bytes "range") requests empty_cache start
            ≡ none))
operate_all-AreServed_example =
    operate_all-AreServed memory_kvs stod in_order 4 restore (bytes "range") restore-RollsBack
      requests empty_cache start empty_cache-IsSound

attempt-attempt_uncached_example :
    AgreesOn memory_kvs stod in_order 4 restore (bytes "range") 1 status_ok query start (
      attempt memory_kvs stod in_order 4 restore
        (bytes "range")
        true
        1
        status_ok
        query
        empty_cache
        start)
attempt-attempt_uncached_example =
    attempt-attempt_uncached memory_kvs stod in_order 4 restore (bytes "range") 1 status_ok query
      empty_cache start empty_cache-IsSound

-- A node with an age.
abbrev aged : World Memory
aged = (create_node memory_kvs stod 1 [] (bytes "{\"age\": 1}") start).2

aged_is_open : is_open 1 aged.store.nodes_handle ≡ true
unfolding memory_kvs create_node allocate_id index_new_node eq_bytes
aged_is_open = refl

abbrev at_least_one : Comparison
at_least_one = record { op = ge; text = bytes "1"; number = stod (bytes "1") }

full_scan-keep_example :
    full_scan memory_kvs stod 4 1 (bytes "age") at_least_one aged (1 ∷ 2 ∷ 1 ∷ [])
    ≡ keep
        (λ id.
          passes stod
            (bytes "age")
            at_least_one
            (memory_kvs.content_get aged.db aged.store.nodes_handle (to_key id)))
        (1 ∷ 2 ∷ 1 ∷ [])
full_scan-keep_example =
    full_scan-keep memory_kvs (bytes "age") at_least_one stod 1 4 aged (1 ∷ 2 ∷ 1 ∷ []) aged_is_open

-- The node is there twice, and no record has the other id.
full_scan-aged :
    full_scan memory_kvs stod 4 1 (bytes "age") at_least_one aged (1 ∷ 2 ∷ 1 ∷ []) ≡ 1 ∷ 1 ∷ []
unfolding memory_kvs create_node allocate_id full_scan keep find_id get_nodes_batch index_new_node
    eq_bytes to_key be_bytes assign_id get_json_value find_byte has_prefix span compare_double
full_scan-aged = refl

only_ends : OnlyEnds (commits ∷ aborts ∷ [])
unfolding OnlyEnds
only_ends = tt

lifetime-opened_example :
    lifetime (opened 7 true) (commits ∷ aborts ∷ [])
    ≡ transaction_begin 7
      ∷ transaction_borrow_handle 7
      ∷ transaction_commit 7
      ∷ transaction_dispose 7
      ∷ []
lifetime-opened_example = lifetime-opened 7 (commits ∷ aborts ∷ []) only_ends

-- A second `begin` takes the place of the first transaction, which never ends.
lifetime-begun_twice :
    lifetime (opened 7 true) (begins (opened 8 true) ∷ [])
    ≡ transaction_begin 7
      ∷ transaction_borrow_handle 7
      ∷ transaction_begin 8
      ∷ transaction_borrow_handle 8
      ∷ transaction_abort 8
      ∷ transaction_dispose 8
      ∷ []
unfolding lifetime begin run_uses destroy
lifetime-begun_twice = refl
