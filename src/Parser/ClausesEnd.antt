-- ===== src/Parser/ClausesEnd.antt =====
-- The parsers of clauses end, on a fuel of two units for each token.
use tsurugi_graph.Base.{
  ℕ, zero, suc, ◌+◌, ◌*◌, ◌≤◌, ◌<◌, ◌≡◌, refl, Bool, true, false, ◌||◌, List, [], ◌∷◌, map, arith,
  Bytes, bytes, length, if◌then◌else◌, eq_bytes,
}
use tsurugi_graph.Lexer.{
  Token, identifier, comma, dot, equals, less_than, greater_than, keyword_create, keyword_match,
  keyword_return, keyword_where, keyword_as, keyword_delete, keyword_set, keyword_unwind, to_upper,
}
use tsurugi_graph.Ast.{delete_clause, Clause}
use tsurugi_graph.Parser.Monad.{
  Result, bind, Tokens, Parser, pure, peek, next_is, rest_of, consume, throw, advance,
  optional_identifier,
}
use tsurugi_graph.Parser.Expressions.{parse_expression}
use tsurugi_graph.Parser.Patterns.{parse_pattern_path}
use tsurugi_graph.Parser.Clauses.{
  separated, parse_create, parse_match, parse_return_item, parse_return, parse_where,
  parse_variable_name, parse_delete_impl, parse_assignment, parse_set, parse_unwind,
  parse_delete_clause, parse_clause,
}
use tsurugi_graph.Parser.Ends.{
  Ends, ok-Ends, failed-Ends, bind-Ends, if-Ends, length-rest_of, consume-Ends, match-Ends,
}
use tsurugi_graph.Parser.ExpressionsEnd.{weaken, parse_expression-Ends}
use tsurugi_graph.Parser.PatternsEnd.{parse_pattern_path-Ends, optional_identifier-Ends}

-- On enough fuel it takes a token at least, or fails.
unfoldable pub Takes {ℓ} : {A : Type ℓ} → (ℕ → Parser A) → Type 0
Takes item = (fuel : ℕ) (ts : Tokens) → 2 * length ts < fuel → Ends (length ts) (item fuel ts)

separated-Ends {ℓ} :
    {A : Type ℓ} (item : ℕ → Parser A) (takes : Takes item) (fuel : ℕ) (ts : Tokens)
    → 2 * length ts + 1 < fuel
    → Ends (length ts) (separated item fuel ts)
unfolding separated Takes
separated-Ends item takes zero ts h = absurd (omega arith)
separated-Ends item takes (suc fuel) ts h =
    bind-Ends (length ts) (length ts) _ (takes fuel ts (omega arith)) (λ p q.
      match-Ends comma (length ts) p.1 _ refl
        (λ shorter.
          bind-Ends (length (rest_of p.1)) (length ts) _
            (separated-Ends item takes fuel (rest_of p.1) (omega arith))
            (λ c d. ok-Ends _ _ _ (omega arith)))
        (ok-Ends _ _ _ (omega arith)))

-- A list of items, made into a clause.
clause_of-Ends {ℓ} :
    {A : Type ℓ} (item : ℕ → Parser A) (takes : Takes item) (make : List A → Clause) (fuel : ℕ)
    (ts : Tokens)
    → 2 * length ts + 1 < fuel
    → Ends (length ts) (bind (separated item fuel ts) λ (xs, rest). pure (make xs) rest)
clause_of-Ends item takes make fuel ts h =
    bind-Ends (length ts) (length ts) _ (separated-Ends item takes fuel ts h)
      (λ p q. ok-Ends _ _ _ q)

alias-Ends :
    (b : Bool) (ts : Tokens)
    → Ends (suc (length ts)) ((if b then optional_identifier else pure {A = Bytes} []) ts)
alias-Ends true ts = optional_identifier-Ends ts
alias-Ends false ts = ok-Ends _ _ _ (omega arith)

parse_return_item-Takes : Takes parse_return_item
unfolding Takes parse_return_item
parse_return_item-Takes fuel ts h =
    bind-Ends (length ts) (length ts) _ (parse_expression-Ends fuel ts h) (λ p1 q1.
      match-Ends keyword_as (length ts) p1.1 _ refl
        (λ shorter.
          bind-Ends (suc (length (rest_of p1.1))) (length ts) _ (alias-Ends true (rest_of p1.1))
            (λ p2 q2. ok-Ends _ _ _ (omega arith)))
        (ok-Ends _ _ _ (omega arith)))

parse_variable_name-Ends :
    (msg : Bytes) (ts : Tokens) → Ends (length ts) (parse_variable_name msg ts)
unfolding parse_variable_name throw
parse_variable_name-Ends msg ts =
    if-Ends (next_is identifier ts) (λ i. ok-Ends _ _ _ (length-rest_of identifier ts refl i))
      (λ i. failed-Ends _ _)

parse_assignment-Takes : Takes parse_assignment
unfolding Takes parse_assignment
parse_assignment-Takes fuel ts h =
    bind-Ends (length ts) (length ts) _
      (parse_variable_name-Ends (bytes "Expected variable name in SET clause") ts)
      (λ p1 q1.
        bind-Ends (length p1.1) (length ts) _
          (consume-Ends dot (bytes "Expected '.' in SET clause") p1.1 refl)
          (λ p2 q2.
            bind-Ends (length p2.1) (length ts) _
              (parse_variable_name-Ends (bytes "Expected property name in SET clause") p2.1)
              (λ p3 q3.
                bind-Ends (length p3.1) (length ts) _
                  (consume-Ends equals (bytes "Expected '=' in SET clause") p3.1 refl)
                  (λ p4 q4.
                    bind-Ends (length p4.1) (length ts) (parse_expression fuel p4.1)
                      (parse_expression-Ends fuel p4.1 (omega arith))
                      (λ p5 q5. ok-Ends _ _ p5.1 (omega arith))))))

parse_where-Takes : Takes parse_where
unfolding Takes parse_where
parse_where-Takes fuel ts h =
    bind-Ends (length ts) (length ts) _ (parse_expression-Ends fuel ts h) (λ p q.
      if-Ends (next_is equals p.1 || next_is less_than p.1 || next_is greater_than p.1)
        (λ c.
          let kept = rest_of-≤ p.1 in
          bind-Ends (length (rest_of p.1)) (length ts) _
            (parse_expression-Ends fuel (rest_of p.1) (omega arith))
            (λ p2 q2. ok-Ends _ _ _ (omega arith)))
        (λ c. ok-Ends _ _ _ q))
  where
    rest_of-≤ : (ts' : Tokens) → length (rest_of ts') ≤ length ts'
    rest_of-≤ [] = omega arith
    rest_of-≤ (t ∷ ts') = omega arith

parse_unwind-Takes : Takes parse_unwind
unfolding Takes parse_unwind
parse_unwind-Takes fuel ts h =
    bind-Ends (length ts) (length ts) _ (parse_expression-Ends fuel ts h) (λ p1 q1.
      bind-Ends (length p1.1) (length ts) _
        (consume-Ends keyword_as (bytes "Expected AS in UNWIND clause") p1.1 refl)
        (λ p2 q2.
          bind-Ends (length p2.1) (length ts) _
            (consume-Ends identifier (bytes "Expected alias in UNWIND clause") p2.1 refl)
            (λ p3 q3. ok-Ends _ _ p3.1 (omega arith))))

delete_impl-Ends :
    (detach : Bool) (fuel : ℕ) (ts : Tokens)
    → 2 * length ts + 1 < fuel
    → Ends (length ts) (parse_delete_impl detach fuel ts)
unfolding parse_delete_impl Takes
delete_impl-Ends detach fuel ts h =
    clause_of-Ends (λ f. parse_variable_name (bytes "Expected variable name in DELETE clause"))
      (λ f us k. parse_variable_name-Ends (bytes "Expected variable name in DELETE clause") us)
      (λ vs. delete_clause vs detach) fuel ts h

second_word-Ends :
    (b : Bool) (word : Token) (ts : Tokens)
    → Ends (suc (length ts)) (
        (if b then consume keyword_delete (bytes "Expected 'DELETE' after 'DETACH'") else pure word)
          ts)
second_word-Ends true word ts =
    weaken (length ts) (suc (length ts)) _ (omega arith) (consume-Ends keyword_delete _ ts refl)
second_word-Ends false word ts = ok-Ends _ _ ts (omega arith)

parse_delete_clause-Ends :
    (fuel : ℕ) (ts : Tokens)
    → 2 * length ts < fuel
    → next_is keyword_delete ts ≡ true
    → Ends (length ts) (parse_delete_clause fuel ts)
unfolding parse_delete_clause advance
parse_delete_clause-Ends fuel ts h e =
    let detach = eq_bytes (map to_upper (peek ts).text) (bytes "DETACH") in
    let shorter = length-rest_of keyword_delete ts refl e in
    bind-Ends (suc (length (rest_of ts))) (length ts) _
      (second_word-Ends detach (peek ts) (rest_of ts))
      (λ p q.
        weaken (length p.1) (length ts) (parse_delete_impl detach fuel p.1) (omega arith)
          (delete_impl-Ends detach fuel p.1 (omega arith)))

-- A clause behind its keyword.
behind_keyword {ℓ} :
    {A : Type ℓ} (ts : Tokens) (r : Result (A × Tokens))
    → length (rest_of ts) < length ts
    → Ends (length (rest_of ts)) r
    → Ends (length ts) r
behind_keyword ts r h e = weaken (length (rest_of ts)) (length ts) r (omega arith) e

pub parse_clause-Takes : Takes parse_clause
unfolding Takes parse_clause parse_create parse_match parse_return parse_set throw
parse_clause-Takes fuel ts h =
    if-Ends (next_is keyword_create ts)
      (λ e.
        let shorter = length-rest_of keyword_create ts refl e in
        behind_keyword ts _ shorter (
          clause_of-Ends parse_pattern_path parse_pattern_path-Ends _ fuel (rest_of ts)
            (omega arith)))
      (λ n1.
        if-Ends (next_is keyword_match ts)
          (λ e.
            let shorter = length-rest_of keyword_match ts refl e in
            behind_keyword ts _ shorter (
              clause_of-Ends parse_pattern_path parse_pattern_path-Ends _ fuel (rest_of ts)
                (omega arith)))
          (λ n2.
            if-Ends (next_is keyword_return ts)
              (λ e.
                let shorter = length-rest_of keyword_return ts refl e in
                behind_keyword ts _ shorter (
                  clause_of-Ends parse_return_item parse_return_item-Takes _ fuel (rest_of ts)
                    (omega arith)))
              (λ n3.
                if-Ends (next_is keyword_where ts)
                  (λ e.
                    let shorter = length-rest_of keyword_where ts refl e in
                    behind_keyword ts _ shorter (parse_where-Takes fuel (rest_of ts) (omega arith)))
                  (λ n4.
                    if-Ends (next_is keyword_delete ts) (λ e. parse_delete_clause-Ends fuel ts h e)
                      (λ n5.
                        if-Ends (next_is keyword_set ts)
                          (λ e.
                            let shorter = length-rest_of keyword_set ts refl e in
                            behind_keyword ts _ shorter (
                              clause_of-Ends parse_assignment parse_assignment-Takes _ fuel
                                (rest_of ts) (omega arith)))
                          (λ n6.
                            if-Ends (next_is keyword_unwind ts)
                              (λ e.
                                let shorter = length-rest_of keyword_unwind ts refl e in
                                behind_keyword ts _ shorter
                                  (parse_unwind-Takes fuel (rest_of ts) (omega arith)))
                              (λ n7. failed-Ends _ _)))))))
