-- ===== src/Service/Transparent.antt =====
-- An attempt with the query cache, against one that parses the query each time.
use tsurugi_graph.Base.{
  ℕ, ◌≡◌, refl, sym, ap, ◌∙◌, ◌⊎◌, inl, inr, true, Option, none, some, List, Bytes, All,
  Option-cases, find,
}
use mathlib.Core.Path.{subst}
use tsurugi_graph.Ast.{Statement}
use tsurugi_graph.Parser.Monad.{Result, ok, failed, out_of_fuel}
use tsurugi_graph.Parser.Clauses.{parse_query}
use tsurugi_graph.QueryCache.Cache.{Cache, get, put}
use tsurugi_graph.QueryCache.Entries.{find-All, put-All, get-find}
use tsurugi_graph.QueryCache.Representation.{Represents}
use tsurugi_graph.QueryCache.Refinement.{get-Represents, put-Represents}
use tsurugi_graph.Parser.Answers.{IsAnswered, parse_query-IsAnswered}
use tsurugi_graph.Kvs.{Kvs}
use tsurugi_graph.Storage.State.{World}
use tsurugi_graph.Executor.Update.{Pending}
use tsurugi_graph.Service.Retry.{Attempt, threw, StatusCode}
use tsurugi_graph.Service.Attempt.{rolled_back, run_statement, parse_and_run, attempt}

pub Result-cases {ℓ} :
    {A : Type ℓ} (r : Result A)
    → ((a : A) × (r ≡ ok a)) ⊎ (((msg : Bytes) × (r ≡ failed msg)) ⊎ (r ≡ out_of_fuel))
Result-cases (ok a) = inl (a, refl)
Result-cases (failed msg) = inr (inl (msg, refl))
Result-cases out_of_fuel = inr (inr refl)

-- Every statement in the cache is what its text is parsed to.
unfoldable pub IsParse : Bytes × Statement → Type 0
IsParse e = parse_query e.0 ≡ ok e.1

abbrev pub IsCoherent : Cache Statement → Type 0
IsCoherent c = All IsParse c.cache

-- The cache holds entries by their last use, and only what was parsed.
pub record IsSound (c : Cache Statement) : Type 0 where
  pub entries : List (Bytes × Statement)
  pub represents : Represents c entries
  pub coherent : IsCoherent c

module _ {S : Type 0} (kvs : Kvs S) (stod : Bytes → Option ℕ) (iteration : Pending → Pending)
    (concurrency : ℕ) (rollback : S → S → S) (out_of_range : Bytes) where
  -- An attempt that parses the query each time.
  unfoldable pub attempt_uncached : ℕ → StatusCode → Bytes → World S → Option (Attempt × World S)
  attempt_uncached tx code query w = elim (parse_query query) [
    | out_of_fuel ↦ none
    | failed msg ↦
        some (threw msg, rolled_back kvs stod iteration concurrency rollback out_of_range w w)
    | ok stmt ↦
        some (run_statement kvs stod iteration concurrency rollback out_of_range tx code stmt w)
  ]

  -- The attempt returns, with the outcome and the world of one without the cache, and a sound cache.
  abbrev pub AgreesOn :
      ℕ → StatusCode → Bytes → World S → Option (Attempt × Cache Statement × World S) → Type 0
  AgreesOn tx code query w o =
      (a : Attempt) × (c : Cache Statement) × (w1 : World S) × (o ≡ some (a, c, w1))
      × (attempt_uncached tx code query w ≡ some (a, w1))
      × IsSound c

  put-IsSound :
      (query : Bytes) (stmt : Statement) (c : Cache Statement)
      → parse_query query ≡ ok stmt
      → IsSound c
      → (c1 : Cache Statement) × (put query stmt c ≡ some c1) × IsSound c1
  unfolding IsParse
  put-IsSound query stmt c parsed h =
      let (c1, e, kept, same) = put-Represents query stmt c h.entries h.represents in
      (
        c1,
        e,
        record {
          entries = _;
          represents = kept;
          coherent = put-All IsParse query stmt c c1 parsed h.coherent e;
        },
      )

  parse_and_run-AgreesOn :
      (tx : ℕ) (code : StatusCode) (query : Bytes) (c : Cache Statement) (w : World S)
      → IsSound c
      → AgreesOn tx code query w
          (parse_and_run kvs stod iteration concurrency rollback out_of_range tx code query c w)
  unfolding parse_and_run attempt_uncached
  parse_and_run-AgreesOn tx code query c w h = elim (Result-cases (parse_query query)) [
    | inl (stmt, e) ↦
        let (c1, n, kept) = put-IsSound query stmt c e h in
        let r = run_statement kvs stod iteration concurrency rollback out_of_range tx code stmt w in
        rw (e, parse_and_run) (rw n (r.0, c1, r.1, refl, rw (e, attempt_uncached) refl, kept))
    | inr (inl (msg, e)) ↦ rw (e, parse_and_run) (_, c, _, refl, rw (e, attempt_uncached) refl, h)
    | inr (inr e) ↦ absurd (subst IsAnswered e (parse_query-IsAnswered query))
  ]

  get-IsSound :
      (query : Bytes) (c : Cache Statement)
      → IsSound c
      → (r : Option Statement) × (c1 : Cache Statement) × (get query c ≡ some (r, c1))
        × (r ≡ find query c.cache)
        × IsSound c1
  get-IsSound query c h =
      let (c1, e, kept, same) = get-Represents query c h.entries h.represents in
      let (found, left) = get-find query c c1 (find query h.entries) e in
      (
        find query h.entries,
        c1,
        e,
        found,
        record {
          entries = _;
          represents = kept;
          coherent = subst (All IsParse) (sym left) h.coherent;
        },
      )

  -- Where every cached statement is what its text is parsed to, and the cache holds entries as it
  -- promises, an attempt that begins returns: with the outcome and the database of an attempt that
  -- parses the query each time, and with such a cache again.
  pub attempt-attempt_uncached :
      (tx : ℕ) (code : StatusCode) (query : Bytes) (c : Cache Statement) (w : World S)
      → IsSound c
      → AgreesOn tx code query w
          (attempt kvs stod iteration concurrency rollback out_of_range true tx code query c w)
  unfolding attempt attempt_uncached IsParse
  attempt-attempt_uncached tx code query c w h =
      let (r, c1, e, found, kept) = get-IsSound query c h in
      elim (Option-cases r) [
        | inl n ↦
            let missed : get query c ≡ some (none, c1) = e ∙ ap (λ x. some (x, c1)) n in
            rw (missed, attempt) (parse_and_run-AgreesOn tx code query c1 w kept)
        | inr (stmt, n) ↦
            let hit : get query c ≡ some (some stmt, c1) = e ∙ ap (λ x. some (x, c1)) n in
            let parsed : parse_query query ≡ ok stmt =
              find-All IsParse query stmt c.cache h.coherent (sym found ∙ n) in
            let r =
              run_statement kvs stod iteration concurrency rollback out_of_range tx code stmt w in
            rw (hit, attempt) (r.0, c1, r.1, refl, rw (parsed, attempt_uncached) refl, kept)
      ]
