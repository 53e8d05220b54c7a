-- ===== src/Tests/Requests.antt =====
-- The attempts at a request.
use tsurugi_graph.Base.{ℕ, zero, suc, ◌<◌, ◌≡◌, refl, none, some, [], ◌∷◌, arith, bytes}
use tsurugi_graph.Service.Retry.{
  Attempt, begin_failed, executed, err_aborted_retryable, status_ok, success, settle, run_cypher,
  max_retries_error,
}
use tsurugi_graph.Service.Attempts.{doubling, run_cypher-settled, run_cypher-exhausted}

-- No transaction, then a conflict, then a result.
abbrev third_time : ℕ → Attempt
third_time zero = begin_failed
third_time (suc zero) = executed [] err_aborted_retryable
third_time (suc (suc i)) = executed (bytes "[]") status_ok

third_time_transient : (i : ℕ) → i < 2 → settle (third_time i) ≡ none
unfolding settle
third_time_transient zero h = refl
third_time_transient (suc zero) h = refl
third_time_transient (suc (suc i)) h = absurd (omega arith)

third_time_settled : settle (third_time 2) ≡ some (success (bytes "[]"))
unfolding settle
third_time_settled = refl

run_cypher-settled_example : run_cypher third_time ≡ (success (bytes "[]"), doubling 2 10)
run_cypher-settled_example =
    run_cypher-settled 2 third_time (success (bytes "[]")) (omega arith) third_time_transient
      third_time_settled

abbrev never : ℕ → Attempt
never i = begin_failed

never_settled : (i : ℕ) → i < 5 → settle (never i) ≡ none
unfolding settle
never_settled i h = refl

run_cypher-exhausted_example : run_cypher never ≡ (max_retries_error, 10 ∷ 20 ∷ 40 ∷ 80 ∷ 160 ∷ [])
run_cypher-exhausted_example = run_cypher-exhausted never never_settled
