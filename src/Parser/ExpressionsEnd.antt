-- ===== src/Parser/ExpressionsEnd.antt =====
-- `parse_expression` and `parse_properties_map` end, on a fuel of two units for each token.
use tsurugi_graph.Base.{ℕ, zero, suc, ◌+◌, ◌*◌, ◌≤◌, ◌<◌, refl, ◌||◌, arith, Bytes, bytes, length}
use tsurugi_graph.Lexer.{
  identifier, string_literal, number_literal, lbracket, rbracket, lbrace, rbrace, colon, comma, dot,
  eof,
}
use tsurugi_graph.Ast.{Entries, no_entries, set_entry}
use tsurugi_graph.Parser.Monad.{
  Result, ok, failed, out_of_fuel, Tokens, peek, next_is, rest_of, consume, throw,
}
use tsurugi_graph.Parser.Expressions.{
  parse_name, parse_atom, parse_expression, parse_elements, parse_entries,
}
use tsurugi_graph.Parser.Ends.{
  Ends, ok-Ends, failed-Ends, bind-Ends, if-Ends, length-rest_of, consume-Ends, match-Ends,
}

parse_name-Ends : (name : Bytes) (ts : Tokens) → Ends (suc (length ts)) (parse_name name ts)
unfolding parse_name throw
parse_name-Ends name ts =
    if-Ends (next_is dot ts)
      (λ d.
        if-Ends (next_is identifier (rest_of ts))
          (λ i. ok-Ends _ _ _ (
            omega
              (arith, length-rest_of dot ts refl d, length-rest_of identifier (rest_of ts) refl i)))
          (λ i. failed-Ends _ _))
      (λ d. ok-Ends _ _ _ (omega arith))

pub weaken {ℓ} : {A : Type ℓ} (n m : ℕ) (r : Result (A × Tokens)) → n ≤ m → Ends n r → Ends m r
weaken n m (ok p) h e = record { ends = omega (arith, e.ends) }
weaken n m (failed msg) h e = failed-Ends m msg
weaken n m out_of_fuel h e = elim e.ends [ ]

parse_atom-Ends : (ts : Tokens) → Ends (length ts) (parse_atom ts)
unfolding parse_atom throw
parse_atom-Ends ts =
    if-Ends (next_is identifier ts)
      (λ i.
        weaken (suc (length (rest_of ts))) (length ts) (parse_name (peek ts).text (rest_of ts))
          (omega (arith, length-rest_of identifier ts refl i))
          (parse_name-Ends (peek ts).text (rest_of ts)))
      (λ i.
        if-Ends (next_is string_literal ts)
          (λ s. ok-Ends _ _ _ (length-rest_of string_literal ts refl s))
          (λ s.
            if-Ends (next_is number_literal ts)
              (λ n. ok-Ends _ _ _ (length-rest_of number_literal ts refl n))
              (λ n. failed-Ends _ _)))

mutual
  unfolding parse_expression parse_elements parse_entries

  -- `parse_expression` takes a token at least.
  pub parse_expression-Ends :
      (fuel : ℕ) (ts : Tokens) → 2 * length ts < fuel → Ends (length ts) (parse_expression fuel ts)
  parse_expression-Ends zero ts h = absurd (omega arith)
  parse_expression-Ends (suc fuel) ts h =
      if-Ends (next_is lbracket ts)
        (λ l.
          let shorter = length-rest_of lbracket ts refl l in
          bind-Ends (suc (length (rest_of ts))) (length ts) (parse_elements fuel (rest_of ts))
            (parse_elements-Ends fuel (rest_of ts) (omega arith))
            (λ p q.
              bind-Ends (length p.1) (length ts)
                (consume rbracket (bytes "Expected ']' in list literal") p.1)
                (consume-Ends rbracket _ p.1 refl) (λ c d. ok-Ends _ _ _ (omega arith))))
        (λ l.
          if-Ends (next_is lbrace ts)
            (λ b.
              let shorter = length-rest_of lbrace ts refl b in
              bind-Ends (suc (length (rest_of ts))) (length ts)
                (parse_entries fuel no_entries (rest_of ts))
                (parse_entries-Ends fuel no_entries (rest_of ts) (omega arith))
                (λ p q.
                  bind-Ends (length p.1) (length ts)
                    (consume rbrace (bytes "Expected '}' in map literal") p.1)
                    (consume-Ends rbrace _ p.1 refl) (λ c d. ok-Ends _ _ _ (omega arith))))
            (λ b. parse_atom-Ends ts))

  parse_elements-Ends :
      (fuel : ℕ) (ts : Tokens)
      → 2 * length ts + 1 < fuel
      → Ends (suc (length ts)) (parse_elements fuel ts)
  parse_elements-Ends zero ts h = absurd (omega arith)
  parse_elements-Ends (suc fuel) ts h =
      if-Ends (next_is rbracket ts || next_is eof ts) (λ stop. ok-Ends _ _ _ (omega arith))
        (λ go.
          bind-Ends (length ts) (suc (length ts)) (parse_expression fuel ts)
            (parse_expression-Ends fuel ts (omega arith))
            (λ p q.
              match-Ends comma (suc (length ts)) p.1 _ refl
                (λ shorter.
                  bind-Ends (suc (length (rest_of p.1))) (suc (length ts))
                    (parse_elements fuel (rest_of p.1))
                    (parse_elements-Ends fuel (rest_of p.1) (omega arith))
                    (λ c d. ok-Ends _ _ _ (omega arith)))
                (ok-Ends _ _ _ (omega arith))))

  parse_entries-Ends :
      (fuel : ℕ) (map : Entries) (ts : Tokens)
      → 2 * length ts + 1 < fuel
      → Ends (suc (length ts)) (parse_entries fuel map ts)
  parse_entries-Ends zero map ts h = absurd (omega arith)
  parse_entries-Ends (suc fuel) map ts h =
      if-Ends (next_is rbrace ts || next_is eof ts) (λ stop. ok-Ends _ _ _ (omega arith))
        (λ go.
          bind-Ends (length ts) (suc (length ts))
            (consume identifier (bytes "Expected key in map literal") ts)
            (consume-Ends identifier _ ts refl)
            (λ p1 q1.
              bind-Ends (length p1.1) (suc (length ts))
                (consume colon (bytes "Expected ':' in map literal") p1.1)
                (consume-Ends colon _ p1.1 refl)
                (λ p2 q2.
                  bind-Ends (length p2.1) (suc (length ts)) (parse_expression fuel p2.1)
                    (parse_expression-Ends fuel p2.1 (omega arith))
                    (λ p3 q3.
                      match-Ends comma (suc (length ts)) p3.1 _ refl
                        (λ shorter.
                          weaken (suc (length (rest_of p3.1))) (suc (length ts)) _ (omega arith) (
                            parse_entries-Ends fuel (set_entry p1.0.text p3.0 map) (rest_of p3.1)
                              (omega arith)))
                        (ok-Ends _ _ _ (omega arith))))))
