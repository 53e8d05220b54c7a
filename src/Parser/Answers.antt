-- ===== src/Parser/Answers.antt =====
-- `parse` answers: its fuel of three units for each token is enough.
use tsurugi_graph.Base.{
  ℕ, zero, suc, ◌+◌, ◌*◌, ◌<◌, ◌≡◌, refl, inl, inr, some, ◌∷◌, arith, Bytes, length, Bool-cases,
}
use tsurugi_graph.Lexer.{eof, tokenize, tokenize_total}
use tsurugi_graph.Parser.Monad.{Result, ok, failed, out_of_fuel, bind, Tokens, next_is}
use tsurugi_graph.Parser.Clauses.{parse_clause, parse_clauses, parse, parse_query}
use tsurugi_graph.Parser.Ends.{Ends}
use tsurugi_graph.Parser.ClausesEnd.{Takes, parse_clause-Takes}

-- A value or the message of an exception: the fuel was enough.
abbrev pub IsAnswered {ℓ} : {A : Type ℓ} → Result A → Type 0
IsAnswered (ok a) = Unit
IsAnswered (failed msg) = Unit
IsAnswered out_of_fuel = ⊥

bind-IsAnswered {ℓ κ} :
    {A : Type ℓ} {B : Type κ} (n : ℕ) (r : Result (A × Tokens)) (f : A × Tokens → Result B)
    → Ends n r
    → ((p : A × Tokens) → length p.1 < n → IsAnswered (f p))
    → IsAnswered (bind r f)
bind-IsAnswered n (ok p) f h k = k p h.ends
bind-IsAnswered n (failed msg) f h k = tt
bind-IsAnswered n out_of_fuel f h k = h.ends

map-IsAnswered {ℓ κ} :
    {A : Type ℓ} {B : Type κ} (r : Result A) (g : A → B)
    → IsAnswered r
    → IsAnswered (bind r λ a. ok (g a))
map-IsAnswered (ok a) g h = tt
map-IsAnswered (failed msg) g h = tt
map-IsAnswered out_of_fuel g h = h

parse_clauses-IsAnswered :
    (fuel : ℕ) (ts : Tokens) → 2 * length ts + 1 < fuel → IsAnswered (parse_clauses fuel ts)
unfolding parse_clauses Takes
parse_clauses-IsAnswered zero ts h = absurd (omega arith)
parse_clauses-IsAnswered (suc fuel) ts h = elim (Bool-cases (next_is eof ts)) [
  | inl e ↦ rw e tt
  | inr e ↦ rw e (
      bind-IsAnswered (length ts) (parse_clause fuel ts) _
        (parse_clause-Takes fuel ts (omega arith))
        (λ p q.
          map-IsAnswered (parse_clauses fuel p.1) (λ cs. p.0 ∷ cs)
            (parse_clauses-IsAnswered fuel p.1 (omega arith))))
]

parse-IsAnswered : (ts : Tokens) → IsAnswered (parse ts)
unfolding parse
parse-IsAnswered ts = parse_clauses-IsAnswered (3 * length ts + 3) ts (omega arith)

parse_query_tokens :
    (query : Bytes) (ts : Tokens) → tokenize query ≡ some ts → parse_query query ≡ parse ts
unfolding parse_query parse
parse_query_tokens query ts e = rw (e, parse_query) refl

-- Every query text is parsed: the fuel of `parse` is enough on every list of tokens, so that the
-- answer is a statement or the message of an exception.
pub parse_query-IsAnswered : (query : Bytes) → IsAnswered (parse_query query)
parse_query-IsAnswered query =
    let (ts, e) = tokenize_total query in rw (parse_query_tokens query _ e) (parse-IsAnswered _)
