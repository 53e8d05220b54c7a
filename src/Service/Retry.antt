-- ===== src/Service/Retry.antt =====
-- `is_retryable` and the loop of `operator()` over the attempts at a Cypher request. What happens
-- in an attempt, from the transaction's begin to its commit, is its outcome.
use tsurugi_graph.Base.{
  ℕ, zero, suc, ◌*◌, Bool, true, false, Option, none, some, List, [], ◌∷◌, ◌++◌, Bytes, bytes,
  if◌then◌else◌,
}

-- The store's status codes that the service tells apart.
pub data StatusCode : Type 0 where
  status_ok err_aborted_retryable err_conflict_on_write_preserve waiting_for_other_transaction :
      StatusCode
  other_status : ℕ → StatusCode

unfoldable pub is_retryable : StatusCode → Bool
is_retryable err_aborted_retryable = true
is_retryable err_conflict_on_write_preserve = true
is_retryable waiting_for_other_transaction = true
is_retryable status_ok = false
is_retryable (other_status n) = false

pub data Attempt : Type 0 where
  begin_failed execution_failed : Attempt
  -- an exception of the lexer, the parser or the executor, with its text
  threw : Bytes → Attempt
  -- the query was executed, with the result and what the commit returned
  executed : Bytes → StatusCode → Attempt

pub data Response : Type 0 where
  success : Bytes → Response
  error : ℕ → Bytes → Response

-- What the response to a commit is: none where the attempt is made again.
unfoldable pub after_commit : Bytes → StatusCode → Option Response
unfolding is_retryable
after_commit result status_ok = some (success result)
after_commit result code =
    if is_retryable code then none else some (error 2 (bytes "Fatal commit error"))

unfoldable pub settle : Attempt → Option Response
unfolding after_commit
settle begin_failed = none
settle execution_failed = some (error 1 (bytes "Query execution failed"))
settle (threw what) = some (error 3 (bytes "Query error: " ++ what))
settle (executed result code) = after_commit result code

abbrev pub max_retries : ℕ
max_retries = 5

abbrev pub initial_backoff_ms : ℕ
initial_backoff_ms = 10

abbrev pub max_retries_error : Response
max_retries_error = error 101 (bytes "Transaction failed after max retries")

-- The outcomes of the attempts behind the first one.
abbrev pub later : (ℕ → Attempt) → ℕ → Attempt
later attempts i = attempts (suc i)

-- The response, and the milliseconds of each sleep.
unfoldable pub retry_loop : ℕ → ℕ → (ℕ → Attempt) → Response × List ℕ
unfolding settle
retry_loop zero backoff attempts = (max_retries_error, [])
retry_loop (suc left) backoff attempts =
    let (response, sleeps) = retry_loop left (2 * backoff) (later attempts) in
    elim (settle (attempts 0)) [ none ↦ (response, backoff ∷ sleeps) | some r ↦ (r, []) ]

unfoldable pub run_cypher : (ℕ → Attempt) → Response × List ℕ
unfolding retry_loop
run_cypher attempts = retry_loop max_retries initial_backoff_ms attempts
