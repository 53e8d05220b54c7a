-- ===== src/Service/Attempts.antt =====
-- How often a request is tried, and what it answers.
use tsurugi_graph.Base.{ℕ, zero, suc, ◌*◌, ◌<◌, ◌≡◌, refl, none, some, List, [], ◌∷◌, arith, ap}
use tsurugi_graph.Service.Retry.{
  Attempt, Response, settle, later, retry_loop, run_cypher, max_retries_error,
}

-- `n` sleeps, each twice as long as the one before.
abbrev pub doubling : ℕ → ℕ → List ℕ
doubling zero backoff = []
doubling (suc n) backoff = backoff ∷ doubling n (2 * backoff)

retry_loop-settled :
    (k left backoff : ℕ) (attempts : ℕ → Attempt) (r : Response)
    → k < left
    → ((i : ℕ) → i < k → settle (attempts i) ≡ none)
    → settle (attempts k) ≡ some r
    → retry_loop left backoff attempts ≡ (r, doubling k backoff)
unfolding retry_loop
retry_loop-settled k zero backoff attempts r h transient e = absurd (omega arith)
retry_loop-settled zero (suc left) backoff attempts r h transient e = rw (e, retry_loop) refl
retry_loop-settled (suc k) (suc left) backoff attempts r h transient e =
    let first = transient 0 (omega arith) in
    let rest =
      retry_loop-settled k left (2 * backoff) (later attempts) r (omega arith)
        (λ i p. transient (suc i) (omega arith)) e in
    rw (first, retry_loop) (ap (λ (x : Response × List ℕ). (x.0, backoff ∷ x.1)) rest)

retry_loop-exhausted :
    (left backoff : ℕ) (attempts : ℕ → Attempt)
    → ((i : ℕ) → i < left → settle (attempts i) ≡ none)
    → retry_loop left backoff attempts ≡ (max_retries_error, doubling left backoff)
unfolding retry_loop
retry_loop-exhausted zero backoff attempts transient = refl
retry_loop-exhausted (suc left) backoff attempts transient =
    let first = transient 0 (omega arith) in
    let rest =
      retry_loop-exhausted left (2 * backoff) (later attempts)
        (λ i p. transient (suc i) (omega arith)) in
    rw (first, retry_loop) (ap (λ (x : Response × List ℕ). (x.0, backoff ∷ x.1)) rest)

-- The response is that of the first attempt that is not to be made again, if it is one of the
-- first five, and before it the service slept once for each attempt before it, twice as long each
-- time, from 10 milliseconds on.
pub run_cypher-settled :
    (k : ℕ) (attempts : ℕ → Attempt) (r : Response)
    → k < 5
    → ((i : ℕ) → i < k → settle (attempts i) ≡ none)
    → settle (attempts k) ≡ some r
    → run_cypher attempts ≡ (r, doubling k 10)
unfolding run_cypher
run_cypher-settled k attempts r h transient e = retry_loop-settled k 5 10 attempts r h transient e

-- Where each of the first five attempts is to be made again, the response is error 101, after five
-- sleeps.
pub run_cypher-exhausted :
    (attempts : ℕ → Attempt)
    → ((i : ℕ) → i < 5 → settle (attempts i) ≡ none)
    → run_cypher attempts ≡ (max_retries_error, 10 ∷ 20 ∷ 40 ∷ 80 ∷ 160 ∷ [])
unfolding run_cypher
run_cypher-exhausted attempts transient = retry_loop-exhausted 5 10 attempts transient
