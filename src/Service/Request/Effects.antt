-- ===== src/Service/Request/Effects.antt =====
-- The answers to Cypher requests, and what they leave of the tables.
use tsurugi_graph.Base.{
  ℕ, zero, suc, ◌*◌, ◌≡◌, refl, ap, sym, ◌∙◌, ◌⊎◌, inl, inr, Bool, true, false, if◌then◌else◌,
  Option, none, some, List, [], ◌∷◌, Bytes, Option-cases, Bool-cases, arith,
}
use mathlib.Core.Path.{subst}
use tsurugi_graph.Ast.{Statement}
use tsurugi_graph.Parser.Clauses.{parse_query}
use tsurugi_graph.QueryCache.Cache.{Cache}
use tsurugi_graph.Kvs.{Kvs}
use tsurugi_graph.Storage.State.{World}
use tsurugi_graph.Executor.State.{Status}
use tsurugi_graph.Executor.Update.{Pending}
use tsurugi_graph.Executor.Run.{Outcome, execute}
use tsurugi_graph.Service.Retry.{
  Attempt, begin_failed, execution_failed, threw, executed, StatusCode, status_ok,
  err_aborted_retryable, err_conflict_on_write_preserve, waiting_for_other_transaction,
  other_status, Response, success, error, settle, after_commit, max_retries_error, max_retries,
  initial_backoff_ms,
}
use tsurugi_graph.Service.Attempt.{new_executor, finish, run_statement, attempt}
use tsurugi_graph.Service.Transparent.{
  Result-cases, IsSound, attempt_uncached, attempt-attempt_uncached,
}
use tsurugi_graph.Service.Request.{
  Trial, next_trials, Served, unless_undefined, slept, attempt_with, serve_left, serve,
}

module _ {S : Type 0} (kvs : Kvs S) where
  abbrev pub SameContents : S → S → Type 0
  SameContents s s1 = (h : ℕ) (k : Bytes) → kvs.content_get s1 h k ≡ kvs.content_get s h k

  -- A transaction that is aborted leaves the tables as they were at its begin.
  pub record RollsBack (rollback : S → S → S) : Type 0 where
    pub restored : (s0 s : S) → SameContents s0 (rollback s0 s)

  -- Where the attempt is no success, the tables are as they were.
  unfoldable pub AttemptEffect : World S → Attempt → World S → Type 0
  AttemptEffect w (executed result status_ok) w1 = Unit
  AttemptEffect w _ w1 = SameContents w.db w1.db

  unfoldable pub ResponseEffect : World S → Response → World S → Type 0
  ResponseEffect w (success result) w1 = Unit
  ResponseEffect w (error code message) w1 = SameContents w.db w1.db

module _ {S : Type 0} (kvs : Kvs S) (stod : Bytes → Option ℕ) (iteration : Pending → Pending)
    (concurrency : ℕ) (rollback : S → S → S) (out_of_range : Bytes)
    (laws : RollsBack kvs rollback) where
  finish-AttemptEffect :
      (code : StatusCode) (w : World S) (o : Outcome S)
      → AttemptEffect kvs w
          (finish kvs stod iteration concurrency rollback out_of_range code w o).0
          (finish kvs stod iteration concurrency rollback out_of_range code w o).1
  unfolding finish AttemptEffect
  finish-AttemptEffect status_ok w (Status.done, result, ex) = tt
  finish-AttemptEffect err_aborted_retryable w (Status.done, result, ex) =
      laws.restored w.db ex.world.db
  finish-AttemptEffect err_conflict_on_write_preserve w (Status.done, result, ex) =
      laws.restored w.db ex.world.db
  finish-AttemptEffect waiting_for_other_transaction w (Status.done, result, ex) =
      laws.restored w.db ex.world.db
  finish-AttemptEffect (other_status n) w (Status.done, result, ex) = laws.restored w.db ex.world.db
  finish-AttemptEffect code w (Status.failed, result, ex) = laws.restored w.db ex.world.db
  finish-AttemptEffect code w (Status.threw, result, ex) = laws.restored w.db ex.world.db

  abbrev EffectIn : World S → Option (Attempt × World S) → Type 0
  EffectIn w none = Unit
  EffectIn w (some (a, w1)) = AttemptEffect kvs w a w1

  attempt_uncached-EffectIn :
      (tx : ℕ) (code : StatusCode) (query : Bytes) (w : World S)
      → EffectIn w
          (attempt_uncached kvs stod iteration concurrency rollback out_of_range tx code query w)
  unfolding attempt_uncached run_statement AttemptEffect
  attempt_uncached-EffectIn tx code query w = elim (Result-cases (parse_query query)) [
    | inl (stmt, e) ↦
        rw (e, attempt_uncached)
          (finish-AttemptEffect code w
            (execute kvs stod iteration concurrency tx stmt [] (new_executor w)))
    | inr (inl (msg, e)) ↦ rw (e, attempt_uncached) (laws.restored w.db w.db)
    | inr (inr e) ↦ rw (e, attempt_uncached) tt
  ]

  -- One attempt of a request: it returns, its outcome is that of its effect, and the cache stays
  -- sound.
  attempt_with-Effect :
      (t : Trial) (query : Bytes) (c : Cache Statement) (w : World S)
      → IsSound c
      → (a : Attempt) × (c1 : Cache Statement) × (w1 : World S) × (attempt_with kvs stod iteration
            concurrency rollback out_of_range t query c w
          ≡ some (a, c1, w1))
        × AttemptEffect kvs w a w1
        × IsSound c1
  unfolding attempt_with attempt AttemptEffect
  attempt_with-Effect t query c w h = elim (Bool-cases t.begins) [
    | inr e ↦ (begin_failed, c, w, rw e refl, (λ g k. refl), h)
    | inl e ↦
        let (a, c1, w1, ran, same, kept) =
          attempt-attempt_uncached kvs stod iteration concurrency rollback out_of_range t.tx t.code
            query c w h in
        (
          a,
          c1,
          w1,
          rw e ran,
          subst (EffectIn w) same (attempt_uncached-EffectIn t.tx t.code query w),
          kept,
        )
  ]

  settle-ResponseEffect :
      (a : Attempt) (r : Response) (w w1 : World S)
      → AttemptEffect kvs w a w1
      → settle a ≡ some r
      → ResponseEffect kvs w r w1
  unfolding settle after_commit AttemptEffect ResponseEffect
  settle-ResponseEffect begin_failed r w w1 h e = absurd (ground arith)
  settle-ResponseEffect execution_failed (success x) w w1 h e = tt
  settle-ResponseEffect execution_failed (error n m) w w1 h e = h
  settle-ResponseEffect (threw what) (success x) w w1 h e = tt
  settle-ResponseEffect (threw what) (error n m) w w1 h e = h
  settle-ResponseEffect (executed x code) (success y) w w1 h e = tt
  settle-ResponseEffect (executed x status_ok) (error n m) w w1 h e = absurd (ground arith)
  settle-ResponseEffect (executed x err_aborted_retryable) (error n m) w w1 h e = h
  settle-ResponseEffect (executed x err_conflict_on_write_preserve) (error n m) w w1 h e = h
  settle-ResponseEffect (executed x waiting_for_other_transaction) (error n m) w w1 h e = h
  settle-ResponseEffect (executed x (other_status k)) (error n m) w w1 h e = h

  -- An attempt that is to be made again was no success.
  settle-SameContents :
      (a : Attempt) (w w1 : World S)
      → AttemptEffect kvs w a w1
      → settle a ≡ none
      → SameContents kvs w.db w1.db
  unfolding settle after_commit AttemptEffect
  settle-SameContents begin_failed w w1 h e = h
  settle-SameContents execution_failed w w1 h e = h
  settle-SameContents (threw what) w w1 h e = h
  settle-SameContents (executed x status_ok) w w1 h e = absurd (ground arith)
  settle-SameContents (executed x err_aborted_retryable) w w1 h e = h
  settle-SameContents (executed x err_conflict_on_write_preserve) w w1 h e = h
  settle-SameContents (executed x waiting_for_other_transaction) w w1 h e = h
  settle-SameContents (executed x (other_status k)) w w1 h e = h

  ResponseEffect-trans :
      (w w1 w2 : World S) (r : Response)
      → SameContents kvs w.db w1.db
      → ResponseEffect kvs w1 r w2
      → ResponseEffect kvs w r w2
  unfolding ResponseEffect
  ResponseEffect-trans w w1 w2 (success x) h k = tt
  ResponseEffect-trans w w1 w2 (error n m) h k = λ g j. k g j ∙ h g j

  -- The request is answered, with a sound cache, and with the response's effect.
  abbrev pub IsAnsweredFrom : World S → Served S → Type 0
  IsAnsweredFrom w o =
      (r : Response) × (sleeps : List ℕ) × (c : Cache Statement) × (w1 : World S) × (o
        ≡ some (r, sleeps, c, w1))
      × ResponseEffect kvs w r w1
      × IsSound c

  serve_left-IsAnsweredFrom :
      (left backoff : ℕ) (trials : ℕ → Trial) (query : Bytes) (c : Cache Statement) (w : World S)
      → IsSound c
      → IsAnsweredFrom w (
          serve_left kvs stod iteration concurrency rollback out_of_range left backoff trials query
            c w)
  unfolding serve_left ResponseEffect
  serve_left-IsAnsweredFrom zero backoff trials query c w h =
      (max_retries_error, [], c, w, refl, (λ g k. refl), h)
  serve_left-IsAnsweredFrom (suc left) backoff trials query c w h =
      let (a, c1, w1, e, effect, kept) = attempt_with-Effect (trials 0) query c w h in
      elim (Option-cases (settle a)) [
        | inr (r, s) ↦ (
          r,
          [],
          c1,
          w1,
          rw (e, serve_left) (rw s refl),
          settle-ResponseEffect a r w w1 effect s,
          kept,
        )
        | inl s ↦
            let (r, sleeps, c2, w2, f, effect2, kept2) =
              serve_left-IsAnsweredFrom left (2 * backoff) (next_trials trials) query c1 w1 kept in
            (
              r,
              backoff ∷ sleeps,
              c2,
              w2,
              rw (e, serve_left) (rw s (ap (slept backoff) f)),
              ResponseEffect-trans w w1 w2 r (settle-SameContents a w w1 effect s) effect2,
              kept2,
            )
      ]

  -- The run ends with undefined behaviour in the world's record.
  abbrev pub IsMarked : Served S → Type 0
  IsMarked none = ⊥
  IsMarked (some (r, sleeps, c, w1)) = w1.undefined ≡ true

  -- The attempts at a request, whether or not they have undefined behaviour.
  abbrev pub served_run : (ℕ → Trial) → Bytes → Cache Statement → World S → Served S
  served_run trials query c w =
      serve_left kvs stod iteration concurrency rollback out_of_range max_retries initial_backoff_ms
        trials query c w

  if_false : (b : Bool) → b ≡ false → (x y : Served S) → (if b then x else y) ≡ y
  if_false b e x y = rw e refl

  unmarked-IsAnsweredFrom :
      (w : World S) (o : Served S)
      → IsAnsweredFrom w o
      → IsAnsweredFrom w (unless_undefined o) ⊎ (IsMarked o × (unless_undefined o ≡ none))
  unmarked-IsAnsweredFrom w none (r, sleeps, c, w1, e, effect, kept) = absurd (ground arith)
  unmarked-IsAnsweredFrom w (some (r, sleeps, c, w1)) h = elim (Bool-cases w1.undefined) [
    | inl marked ↦ inr (marked, rw marked refl)
    | inr defined ↦ inl (subst (IsAnsweredFrom w) (sym (if_false w1.undefined defined none _)) h)
  ]

  -- Where an abort leaves the tables as they were at the begin, a Cypher request on a sound cache is
  -- answered, whatever the store answers to the begins and the commits; the cache is sound
  -- again, and where the response is an error, every record of every table is as before. The one
  -- exception is a run whose world records undefined behaviour, an edge that is read behind the end
  -- of its value or a push to the vector that a loop goes through: it has no result.
  pub serve-IsAnsweredFrom :
      (trials : ℕ → Trial) (query : Bytes) (c : Cache Statement) (w : World S)
      → IsSound c
      → IsAnsweredFrom w
          (serve kvs stod iteration concurrency rollback out_of_range trials query c w)
        ⊎ (IsMarked (served_run trials query c w)
            × (serve kvs stod iteration concurrency rollback out_of_range trials query c w ≡ none))
  unfolding serve
  serve-IsAnsweredFrom trials query c w h =
      unmarked-IsAnsweredFrom w (served_run trials query c w)
        (serve_left-IsAnsweredFrom max_retries initial_backoff_ms trials query c w h)
