-- ===== src/Parser/Print/RoundTrip.antt =====
-- The parser on the tokens of a statement.
use tsurugi_graph.Base.{
  ℕ, zero, suc, ◌+◌, ◌*◌, ◌<◌, ◌≡◌, refl, inl, inr, ◌||◌, Bool, true, false, List, [], ◌∷◌, arith,
  Bytes, bytes, length, All, Bool-cases, eq_bytes, ◌==◌,
}
use tsurugi_graph.Lexer.{identifier, comma, dot, equals, less_than, greater_than, keyword_as, eof}
use tsurugi_graph.Ast
use tsurugi_graph.Ast.{
  Expression, variable, literal, property_access, binary, list_literal, map_literal, WhereClause,
  Clause, Statement, return_clause, where_clause, delete_clause, set_clause, unwind,
}
use tsurugi_graph.Parser.Monad.{ok, Tokens, next_is, consume, advance}
use tsurugi_graph.Parser.Patterns.{parse_pattern_path}
use tsurugi_graph.Parser.Clauses.{
  parse_create, parse_match, parse_return_item, parse_return, comparison, plain_condition,
  parse_where, parse_delete_impl, parse_assignment, parse_set, parse_unwind, parse_delete_clause,
  parse_clause, parse_clauses, parse,
}
use tsurugi_graph.Parser.Print.{token_of, symbol, print_expression, IsPrintable, operator_type}
use tsurugi_graph.Parser.Print.Expressions.{parse-print_expression, length-print_expression}
use tsurugi_graph.Parser.Print.Patterns.{print_path, IsPath}
use tsurugi_graph.Parser.Print.Clauses.{
  print_list, print_return_item, print_variable, print_assignment, print_clause, print_statement,
  IsCondition, IsClause, IsStop,
}
use tsurugi_graph.Parser.Print.Items.{
  separated-print_list, length-print_list, paths_back, items_back, names_back, assignments_back,
}

operator_first :
    (op : Bytes) (rest : Tokens)
    → let ts = token_of (operator_type op) op ∷ rest in
      (next_is dot ts ≡ false)
      × ((next_is equals ts || next_is less_than ts || next_is greater_than ts) ≡ true)
operator_first [] rest = (refl, refl)
operator_first (c ∷ s) rest = elim (Bool-cases (c == 60)) [
  | inl e ↦ rw e (refl, refl)
  | inr e ↦
      rw e (elim (Bool-cases (c == 62)) [ inl f ↦ rw f (refl, refl) | inr f ↦ rw f (refl, refl) ])
]

parse_where-plain :
    (fuel : ℕ) (e : Expression) (w : WhereClause) (rest : Tokens)
    → IsPrintable e
    → w ≡ plain_condition e
    → IsStop rest
    → 2 * length (print_expression e rest) < fuel
    → parse_where fuel (print_expression e rest) ≡ ok (where_clause w, rest)
unfolding parse_where
parse_where-plain fuel e w rest h same stop n =
    rw (parse-print_expression fuel e rest h stop.0 n) (rw stop.3 (rw same refl))

parse_where-comparison :
    (fuel : ℕ) (l r : Expression) (op : Bytes) (w : WhereClause) (rest : Tokens)
    → IsPrintable l
    → IsPrintable r
    → w ≡ comparison l op r
    → IsStop rest
    → 2 * length (print_expression (binary l op r) rest) < fuel
    → parse_where fuel (print_expression (binary l op r) rest) ≡ ok (where_clause w, rest)
unfolding parse_where print_expression
parse_where-comparison fuel l r op w rest h k same stop n =
    let right = print_expression r rest in
    let (no_dot, compared) = operator_first op right in
    rw (parse-print_expression fuel l (token_of (operator_type op) op ∷ right) h no_dot n) (
      rw compared (
        rw
          (parse-print_expression fuel r rest k stop.0
            (omega (arith, length-print_expression l (token_of (operator_type op) op ∷ right))))
          (rw same refl)))

parse_where-print :
    (fuel : ℕ) (e : Expression) (w : WhereClause) (rest : Tokens)
    → IsCondition e w
    → IsStop rest
    → 2 * length (print_expression e rest) < fuel
    → parse_where fuel (print_expression e rest) ≡ ok (where_clause w, rest)
unfolding IsPrintable
parse_where-print fuel (variable v) w rest h = parse_where-plain fuel _ w rest tt h
parse_where-print fuel (literal v s) w rest h = parse_where-plain fuel _ w rest tt h
parse_where-print fuel (property_access v k) w rest h = parse_where-plain fuel _ w rest tt h
parse_where-print fuel (binary l op r) w rest (h, k, same) =
    parse_where-comparison fuel l r op w rest h k same
parse_where-print fuel (list_literal es) w rest (h, same) = parse_where-plain fuel _ w rest h same
parse_where-print fuel (map_literal es) w rest (h, same) = parse_where-plain fuel _ w rest h same

parse_delete_impl-print :
    (fuel : ℕ) (detach : Bool) (variables : List Bytes) (rest : Tokens)
    → IsClause (delete_clause variables detach)
    → IsStop rest
    → next_is comma rest ≡ false
    → 2 * length (print_list print_variable variables rest) + 1 < fuel
    → parse_delete_impl detach fuel (print_list print_variable variables rest)
      ≡ ok (delete_clause variables detach, rest)
unfolding parse_delete_impl
parse_delete_impl-print fuel detach variables rest h stop c n =
    rw
      (separated-print_list _ print_variable _
        (names_back (bytes "Expected variable name in DELETE clause")) fuel variables rest h.0 h.1
        stop c n)
      refl

parse_clause-print :
    (fuel : ℕ) (c : Clause) (rest : Tokens)
    → IsClause c
    → IsStop rest
    → next_is comma rest ≡ false
    → 2 * length (print_clause c rest) < fuel
    → parse_clause fuel (print_clause c rest) ≡ ok (c, rest)
unfolding print_clause parse_clause parse_create parse_match parse_return parse_delete_clause
    parse_delete_impl parse_set parse_unwind consume advance eq_bytes
parse_clause-print fuel (Ast.create paths) rest h stop c n =
    rw
      (separated-print_list IsPath print_path parse_pattern_path paths_back fuel paths rest h.0 h.1
        stop c (omega arith))
      refl
parse_clause-print fuel (Ast.match paths) rest h stop c n =
    rw
      (separated-print_list IsPath print_path parse_pattern_path paths_back fuel paths rest h.0 h.1
        stop c (omega arith))
      refl
parse_clause-print fuel (return_clause items) rest h stop c n =
    rw
      (separated-print_list _ print_return_item parse_return_item items_back fuel items rest h.0 h.1
        stop c (omega arith))
      refl
parse_clause-print fuel (where_clause w) rest h stop c n =
    parse_where-print fuel w.condition w rest h stop (omega arith)
parse_clause-print fuel (delete_clause variables false) rest h stop c n =
    parse_delete_impl-print fuel false variables rest h stop c (omega arith)
parse_clause-print fuel (delete_clause variables true) rest h stop c n =
    parse_delete_impl-print fuel true variables rest h stop c (omega arith)
parse_clause-print fuel (set_clause assignments) rest h stop c n =
    rw
      (separated-print_list _ print_assignment parse_assignment assignments_back fuel assignments
        rest h.0 h.1 stop c (omega arith))
      refl
parse_clause-print fuel (unwind list alias) rest h stop c n =
    rw
      (parse-print_expression fuel list (symbol keyword_as ∷ token_of identifier alias ∷ rest) h
        refl (omega arith))
      refl

length-print_clause :
    (c : Clause) (rest : Tokens) → IsClause c → length rest < length (print_clause c rest)
unfolding print_clause
length-print_clause (Ast.create paths) rest h =
    omega (arith, length-print_list _ _ _ paths_back paths rest h.1)
length-print_clause (Ast.match paths) rest h =
    omega (arith, length-print_list _ _ _ paths_back paths rest h.1)
length-print_clause (return_clause items) rest h =
    omega (arith, length-print_list _ _ _ items_back items rest h.1)
length-print_clause (where_clause w) rest h =
    omega (arith, length-print_expression w.condition rest)
length-print_clause (delete_clause variables false) rest h =
    omega (arith, length-print_list _ _ _ (names_back []) variables rest h.1)
length-print_clause (delete_clause variables true) rest h =
    omega (arith, length-print_list _ _ _ (names_back []) variables rest h.1)
length-print_clause (set_clause assignments) rest h =
    omega (arith, length-print_list _ _ _ assignments_back assignments rest h.1)
length-print_clause (unwind list alias) rest h =
    omega
      (arith, length-print_expression list (symbol keyword_as ∷ token_of identifier alias ∷ rest))

-- A clause begins with its keyword, and stops what stands before it.
clause_first :
    (c : Clause) (rest : Tokens)
    → let ts = print_clause c rest in
      IsStop ts × (next_is comma ts ≡ false) × (next_is eof ts ≡ false)
unfolding print_clause
clause_first (Ast.create paths) rest = ((refl, refl, refl, refl), refl, refl)
clause_first (Ast.match paths) rest = ((refl, refl, refl, refl), refl, refl)
clause_first (return_clause items) rest = ((refl, refl, refl, refl), refl, refl)
clause_first (where_clause w) rest = ((refl, refl, refl, refl), refl, refl)
clause_first (delete_clause variables false) rest = ((refl, refl, refl, refl), refl, refl)
clause_first (delete_clause variables true) rest = ((refl, refl, refl, refl), refl, refl)
clause_first (set_clause assignments) rest = ((refl, refl, refl, refl), refl, refl)
clause_first (unwind list alias) rest = ((refl, refl, refl, refl), refl, refl)

statement_first :
    (cs : Statement) → IsStop (print_statement cs) × (next_is comma (print_statement cs) ≡ false)
unfolding print_statement
statement_first [] = ((refl, refl, refl, refl), refl)
statement_first (c ∷ cs) = let f = clause_first c (print_statement cs) in (f.0, f.1)

parse_clauses-print_statement :
    (fuel : ℕ) (cs : Statement)
    → All IsClause cs
    → 2 * length (print_statement cs) + 1 < fuel
    → parse_clauses fuel (print_statement cs) ≡ ok cs
unfolding parse_clauses print_statement
parse_clauses-print_statement zero cs h n = absurd (omega arith)
parse_clauses-print_statement (suc fuel) [] h n = refl
parse_clauses-print_statement (suc fuel) (c ∷ cs) h n =
    let rest = print_statement cs in
    let (stop, no_comma) = statement_first cs in
    rw (clause_first c rest).2 (
      rw (parse_clause-print fuel c rest h.0 stop no_comma (omega arith)) (
        rw
          (parse_clauses-print_statement fuel cs h.1
            (omega (arith, length-print_clause c rest h.0)))
          refl))

-- The tokens of a statement are parsed to the statement, where no list of items is empty, the maps
-- have their keys in order, there is no comparison inside an expression, the last element of a path
-- and no other is without a relationship, and a WHERE clause has the legacy fields of its comparison.
pub parse-print_statement : (cs : Statement) → All IsClause cs → parse (print_statement cs) ≡ ok cs
unfolding parse
parse-print_statement cs h =
    parse_clauses-print_statement (3 * length (print_statement cs) + 3) cs h (omega arith)
