-- ===== src/Service/Request.antt =====
-- A Cypher request in `operator()`: the attempts, each with its own transaction.
pub mod Effects
use tsurugi_graph.Base.{
  ℕ, zero, suc, ◌*◌, Bool, Option, none, some, List, [], ◌∷◌, Bytes, if◌then◌else◌,
}
use tsurugi_graph.Ast.{Statement}
use tsurugi_graph.QueryCache.Cache.{Cache}
use tsurugi_graph.Kvs.{Kvs}
use tsurugi_graph.Storage.State.{World}
use tsurugi_graph.Executor.Update.{Pending}
use tsurugi_graph.Service.Retry.{
  Attempt, StatusCode, Response, settle, max_retries, initial_backoff_ms, max_retries_error,
}
use tsurugi_graph.Service.Attempt.{attempt}

-- What the store answers in an attempt: whether the transaction begins, its handle, and the code of
-- the commit.
pub record Trial : Type 0 where
  pub begins : Bool
  pub tx : ℕ
  pub code : StatusCode

abbrev pub next_trials : (ℕ → Trial) → ℕ → Trial
next_trials trials i = trials (suc i)

-- The response, the milliseconds of each sleep, the cache and the world.
abbrev pub Served : Type 0 → Type 0
Served S = Option (Response × List ℕ × Cache Statement × World S)

-- A run that has marked its world has no result.
abbrev pub unless_undefined : {S : Type 0} → Served S → Served S
unless_undefined none = none
unless_undefined (some (r, sleeps, c, w)) = if w.undefined then none else some (r, sleeps, c, w)

abbrev pub slept : {S : Type 0} → ℕ → Served S → Served S
slept backoff none = none
slept backoff (some (r, sleeps, c, w)) = some (r, backoff ∷ sleeps, c, w)

module _ {S : Type 0} (kvs : Kvs S) (stod : Bytes → Option ℕ) (iteration : Pending → Pending)
    (concurrency : ℕ) (rollback : S → S → S) (out_of_range : Bytes) where
  unfoldable pub attempt_with :
      Trial → Bytes → Cache Statement → World S → Option (Attempt × Cache Statement × World S)
  unfolding attempt
  attempt_with t query c w =
      attempt kvs stod iteration concurrency rollback out_of_range t.begins t.tx t.code query c w

  unfoldable pub serve_left : ℕ → ℕ → (ℕ → Trial) → Bytes → Cache Statement → World S → Served S
  unfolding attempt_with settle
  serve_left zero backoff trials query c w = some (max_retries_error, [], c, w)
  serve_left (suc left) backoff trials query c w = elim (attempt_with (trials 0) query c w) [
    | none ↦ none
    | some (a, c1, w1) ↦ elim (settle a) [
      | some r ↦ some (r, [], c1, w1)
      | none ↦ slept backoff (serve_left left (2 * backoff) (next_trials trials) query c1 w1)
    ]
  ]

  -- `none` is undefined behaviour, of the query cache or of the run.
  unfoldable pub serve : (ℕ → Trial) → Bytes → Cache Statement → World S → Served S
  unfolding serve_left
  serve trials query c w =
      unless_undefined (serve_left max_retries initial_backoff_ms trials query c w)
