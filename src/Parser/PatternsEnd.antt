-- ===== src/Parser/PatternsEnd.antt =====
-- The parsers of patterns end, on a fuel of two units for each token.
use tsurugi_graph.Base.{
  ℕ, zero, suc, ◌+◌, ◌*◌, ◌<◌, ◌≡◌, refl, inl, inr, Bool, true, false, ◌||◌, arith, bytes, length,
  ◌==◌, Bool-cases, if◌then◌else◌,
}
use tsurugi_graph.Lexer.{
  TokenType, identifier, lparen, rparen, lbracket, rbracket, lbrace, rbrace, colon, comma, dash,
  arrow_left, arrow_right,
}
use tsurugi_graph.Ast.{Entries, no_entries, set_entry, PatternNode}
use tsurugi_graph.Parser.Monad.{
  tag, Tokens, pure, next_is, rest_of, match, looking_at, optional_identifier,
}
use tsurugi_graph.Parser.Expressions.{parse_expression, parse_properties, parse_properties_map}
use tsurugi_graph.Parser.Patterns.{
  optional_label, optional_properties, parse_node_pattern, relationship_body,
  parse_relationship_detail, parse_relationship_pattern, parse_hops, parse_pattern_path,
}
use tsurugi_graph.Parser.Ends.{
  Ends, ok-Ends, bind-Ends, if-Ends, length-rest_of, consume-Ends, match-Ends,
}
use tsurugi_graph.Parser.ExpressionsEnd.{weaken, parse_expression-Ends}

parse_properties-Ends :
    (fuel : ℕ) (map : Entries) (ts : Tokens)
    → 2 * length ts + 1 < fuel
    → Ends (suc (length ts)) (parse_properties fuel map ts)
unfolding parse_properties
parse_properties-Ends zero map ts h = absurd (omega arith)
parse_properties-Ends (suc fuel) map ts h =
    if-Ends (next_is rbrace ts) (λ stop. ok-Ends _ _ _ (omega arith))
      (λ go.
        bind-Ends (length ts) (suc (length ts)) _
          (consume-Ends identifier (bytes "Expected property key") ts refl)
          (λ p1 q1.
            bind-Ends (length p1.1) (suc (length ts)) _
              (consume-Ends colon (bytes "Expected ':'") p1.1 refl)
              (λ p2 q2.
                bind-Ends (length p2.1) (suc (length ts)) (parse_expression fuel p2.1)
                  (parse_expression-Ends fuel p2.1 (omega arith))
                  (λ p3 q3.
                    match-Ends comma (suc (length ts)) p3.1 _ refl
                      (λ shorter.
                        weaken (suc (length (rest_of p3.1))) (suc (length ts)) _ (omega arith) (
                          parse_properties-Ends fuel (set_entry p1.0.text p3.0 map) (rest_of p3.1)
                            (omega arith)))
                      (ok-Ends _ _ p3.1 (omega arith))))))

parse_properties_map-Ends :
    (fuel : ℕ) (ts : Tokens)
    → 2 * length ts < fuel
    → Ends (length ts) (parse_properties_map fuel ts)
unfolding parse_properties_map
parse_properties_map-Ends fuel ts h =
    bind-Ends (length ts) (length ts) _
      (bind-Ends (length ts) (length ts) _ (consume-Ends lbrace _ ts refl) (λ p q. ok-Ends _ _ _ q))
      (λ p1 q1.
        bind-Ends (suc (length p1.1)) (length ts) _
          (parse_properties-Ends fuel no_entries p1.1 (omega arith))
          (λ p2 q2.
            bind-Ends (length p2.1) (length ts) _ (consume-Ends rbrace _ p2.1 refl)
              (λ p3 q3. ok-Ends _ _ _ (omega arith))))

pub optional_identifier-Ends : (ts : Tokens) → Ends (suc (length ts)) (optional_identifier ts)
unfolding optional_identifier
optional_identifier-Ends ts =
    if-Ends (next_is identifier ts)
      (λ i. ok-Ends _ _ _ (omega (arith, length-rest_of identifier ts refl i)))
      (λ i. ok-Ends _ _ _ (omega arith))

optional_label-Ends : (ts : Tokens) → Ends (suc (length ts)) (optional_label ts)
unfolding optional_label
optional_label-Ends ts =
    match-Ends colon (suc (length ts)) ts _ refl
      (λ shorter.
        weaken (suc (length (rest_of ts))) (suc (length ts)) _ (omega arith)
          (optional_identifier-Ends (rest_of ts)))
      (ok-Ends _ _ _ (omega arith))

optional_properties-Ends :
    (fuel : ℕ) (ts : Tokens)
    → 2 * length ts < fuel
    → Ends (suc (length ts)) (optional_properties fuel ts)
unfolding optional_properties looking_at
optional_properties-Ends fuel ts h = elim (Bool-cases (next_is lbrace ts)) [
  | inl b ↦
      rw b
        (weaken (length ts) (suc (length ts)) _ (omega arith) (parse_properties_map-Ends fuel ts h))
  | inr b ↦ rw b (ok-Ends _ _ _ (omega arith))
]

pub parse_node_pattern-Ends :
    (fuel : ℕ) (ts : Tokens) → 2 * length ts < fuel → Ends (length ts) (parse_node_pattern fuel ts)
unfolding parse_node_pattern
parse_node_pattern-Ends fuel ts h =
    bind-Ends (length ts) (length ts) _ (consume-Ends lparen _ ts refl) (λ p1 q1.
      bind-Ends (suc (length p1.1)) (length ts) _ (optional_identifier-Ends p1.1) (λ p2 q2.
        bind-Ends (suc (length p2.1)) (length ts) _ (optional_label-Ends p2.1) (λ p3 q3.
          bind-Ends (suc (length p3.1)) (length ts) _
            (optional_properties-Ends fuel p3.1 (omega arith))
            (λ p4 q4.
              bind-Ends (length p4.1) (length ts) _ (consume-Ends rparen _ p4.1 refl)
                (λ p5 q5. ok-Ends _ _ _ (omega arith))))))

relationship_body-Ends :
    (fuel : ℕ) (ts : Tokens)
    → 2 * length ts < fuel
    → Ends (suc (length ts)) (relationship_body fuel ts)
unfolding relationship_body
relationship_body-Ends fuel ts h =
    bind-Ends (suc (length ts)) (suc (length ts)) _ (optional_identifier-Ends ts) (λ p2 q2.
      bind-Ends (suc (length p2.1)) (suc (length ts)) _ (optional_label-Ends p2.1) (λ p3 q3.
        bind-Ends (suc (length p3.1)) (suc (length ts)) _
          (optional_properties-Ends fuel p3.1 (omega arith))
          (λ p4 q4.
            bind-Ends (length p4.1) (suc (length ts)) _ (consume-Ends rbracket _ p4.1 refl)
              (λ p5 q5. ok-Ends _ _ _ (omega arith)))))

parse_relationship_detail-Ends :
    (fuel : ℕ) (ts : Tokens)
    → 2 * length ts < fuel
    → Ends (suc (length ts)) (parse_relationship_detail fuel ts)
unfolding parse_relationship_detail
parse_relationship_detail-Ends fuel ts h =
    match-Ends lbracket (suc (length ts)) ts _ refl
      (λ shorter.
        weaken (suc (length (rest_of ts))) (suc (length ts)) _ (omega arith)
          (relationship_body-Ends fuel (rest_of ts) (omega arith)))
      (ok-Ends _ _ _ (omega arith))

-- A token that may be missing.
optional_arrow-Ends :
    (type : TokenType) (ts : Tokens)
    → tag type == 26 ≡ false
    → Ends (suc (length ts)) (match type ts)
unfolding match
optional_arrow-Ends type ts ne =
    if-Ends (next_is type ts) (λ d. ok-Ends _ _ _ (omega (arith, length-rest_of type ts ne d)))
      (λ d. ok-Ends _ _ _ (omega arith))

arrow_or_dash-Ends :
    (b : Bool) (ts : Tokens)
    → Ends (suc (length ts)) ((if b then pure {A = Bool} true else match dash) ts)
arrow_or_dash-Ends true ts = ok-Ends _ _ _ (omega arith)
arrow_or_dash-Ends false ts = optional_arrow-Ends dash ts refl

-- Behind the arrow or dash that may come first.
parse_relationship_pattern-Ends :
    (fuel : ℕ) (ts : Tokens)
    → 2 * length ts < fuel
    → Ends (suc (length ts)) (parse_relationship_pattern fuel ts)
unfolding parse_relationship_pattern
parse_relationship_pattern-Ends fuel ts h =
    bind-Ends (suc (length ts)) (suc (length ts)) _ (optional_arrow-Ends arrow_left ts refl)
      (λ p1 q1.
        bind-Ends (suc (length p1.1)) (suc (length ts)) _ (arrow_or_dash-Ends p1.0 p1.1) (λ p2 q2.
          bind-Ends (suc (length p2.1)) (suc (length ts)) _
            (parse_relationship_detail-Ends fuel p2.1 (omega arith))
            (λ p3 q3.
              bind-Ends (suc (length p3.1)) (suc (length ts)) _
                (optional_arrow-Ends arrow_right p3.1 refl)
                (λ p4 q4.
                  bind-Ends (suc (length p4.1)) (suc (length ts)) _ (arrow_or_dash-Ends p4.0 p4.1)
                    (λ p5 q5. ok-Ends _ _ _ (omega arith))))))

parse_hops-Ends :
    (fuel : ℕ) (node : PatternNode) (ts : Tokens)
    → 2 * length ts + 1 < fuel
    → Ends (suc (length ts)) (parse_hops fuel node ts)
unfolding parse_hops
parse_hops-Ends zero node ts h = absurd (omega arith)
parse_hops-Ends (suc fuel) node ts h =
    if-Ends (next_is dash ts || next_is arrow_left ts)
      (λ go.
        bind-Ends (suc (length ts)) (suc (length ts)) _
          (parse_relationship_pattern-Ends fuel ts (omega arith))
          (λ p1 q1.
            bind-Ends (length p1.1) (suc (length ts)) _
              (parse_node_pattern-Ends fuel p1.1 (omega arith))
              (λ p2 q2.
                bind-Ends (suc (length p2.1)) (suc (length ts)) _
                  (parse_hops-Ends fuel p2.0 p2.1 (omega arith))
                  (λ p3 q3. ok-Ends _ _ _ (omega arith)))))
      (λ stop. ok-Ends _ _ _ (omega arith))

-- A path takes a token at least.
pub parse_pattern_path-Ends :
    (fuel : ℕ) (ts : Tokens) → 2 * length ts < fuel → Ends (length ts) (parse_pattern_path fuel ts)
unfolding parse_pattern_path
parse_pattern_path-Ends fuel ts h =
    bind-Ends (length ts) (length ts) _ (parse_node_pattern-Ends fuel ts h) (λ p q.
      weaken (suc (length p.1)) (length ts) (parse_hops fuel p.0 p.1) (omega arith)
        (parse_hops-Ends fuel p.0 p.1 (omega arith)))
