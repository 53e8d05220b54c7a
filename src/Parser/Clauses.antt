-- ===== src/Parser/Clauses.antt =====
-- The clauses and `parse`.
use tsurugi_graph.Base.{
  ℕ, zero, suc, ◌+◌, ◌*◌, Bool, true, false, ◌||◌, none, some, List, [], ◌∷◌, ◌++◌, map, Bytes,
  bytes, if◌then◌else◌, eq_bytes, length,
}
use tsurugi_graph.Lexer.{
  identifier, comma, dot, equals, less_than, greater_than, keyword_create, keyword_match,
  keyword_return, keyword_where, keyword_as, keyword_delete, keyword_set, keyword_unwind, eof,
  to_upper, tokenize,
}
use tsurugi_graph.Ast
use tsurugi_graph.Ast.{
  Expression, property_access, binary, PatternPath, ReturnItem, Assignment, LegacyValue,
  right_operand, absent, WhereClause, Clause, Statement, return_clause, where_clause, delete_clause,
  set_clause, unwind,
}
use tsurugi_graph.Parser.Monad.{
  Result, ok, out_of_fuel, bind, Tokens, Parser, ◌>>=◌, pure, peek, next_is, rest_of, match,
  consume, advance, throw, optional_identifier,
}
use tsurugi_graph.Parser.Expressions.{parse_expression}
use tsurugi_graph.Parser.Patterns.{parse_pattern_path}

-- `do { ... } while (match(comma));`
unfoldable pub separated {ℓ} : {A : Type ℓ} → (ℕ → Parser A) → ℕ → Parser (List A)
unfolding match
separated item zero ts = out_of_fuel
separated item (suc fuel) ts = bind (item fuel ts) λ (x, rest).
    bind (match comma rest) λ (again, rest1). elim again [
      | true ↦ bind (separated item fuel rest1) λ (xs, rest2). ok (x ∷ xs, rest2)
      | false ↦ ok (x ∷ [], rest1)
    ]

unfoldable pub parse_create : ℕ → Parser Clause
unfolding separated
parse_create fuel = do paths ← separated parse_pattern_path fuel; pure (Ast.create paths)

unfoldable pub parse_match : ℕ → Parser Clause
unfolding separated
parse_match fuel = do paths ← separated parse_pattern_path fuel; pure (Ast.match paths)

unfoldable pub parse_return_item : ℕ → Parser ReturnItem
unfolding match optional_identifier
parse_return_item fuel = do
  e ← parse_expression fuel
  has_alias ← match keyword_as
  alias ← (if has_alias then optional_identifier else pure [])
  pure (record { expr = e; alias = alias })

unfoldable pub parse_return : ℕ → Parser Clause
unfolding separated parse_return_item
parse_return fuel = do items ← separated parse_return_item fuel; pure (return_clause items)

-- The clause of a comparison: the legacy fields are filled where the left side is a property.
unfoldable pub comparison : Expression → Bytes → Expression → WhereClause
comparison (property_access v k) op right = record {
  condition = binary (property_access v k) op right;
  variable = v;
  property = k;
  op = op;
  value = right_operand;
}
comparison left op right = record {
  condition = binary left op right;
  variable = [];
  property = [];
  op = [];
  value = absent;
}

abbrev pub plain_condition : Expression → WhereClause
plain_condition e = record { condition = e; variable = []; property = []; op = []; value = absent }

unfoldable pub parse_where : ℕ → Parser Clause
unfolding comparison
parse_where fuel ts = bind (parse_expression fuel ts) λ (left, rest).
    let operator = (peek rest).text in
    let compared =
      bind (parse_expression fuel (rest_of rest))
        λ (right, end). ok (where_clause (comparison left operator right), end) in
    if next_is equals rest || next_is less_than rest || next_is greater_than rest
    then compared
    else ok (where_clause (plain_condition left), rest)

unfoldable pub parse_variable_name : Bytes → Parser Bytes
unfolding throw
parse_variable_name msg ts =
    if next_is identifier ts then ok ((peek ts).text, rest_of ts) else throw msg ts

unfoldable pub parse_delete_impl : Bool → ℕ → Parser Clause
unfolding separated parse_variable_name
parse_delete_impl detach fuel = do
  variables ←
      separated (λ f. parse_variable_name (bytes "Expected variable name in DELETE clause")) fuel
  pure (delete_clause variables detach)

unfoldable pub parse_assignment : ℕ → Parser Assignment
unfolding parse_variable_name consume
parse_assignment fuel = do
  v ← parse_variable_name (bytes "Expected variable name in SET clause")
  d ← consume dot (bytes "Expected '.' in SET clause")
  p ← parse_variable_name (bytes "Expected property name in SET clause")
  e ← consume equals (bytes "Expected '=' in SET clause")
  value ← parse_expression fuel
  pure (record { variable = v; property = p; value = value })

unfoldable pub parse_set : ℕ → Parser Clause
unfolding separated parse_assignment
parse_set fuel = do assignments ← separated parse_assignment fuel; pure (set_clause assignments)

unfoldable pub parse_unwind : ℕ → Parser Clause
unfolding consume
parse_unwind fuel = do
  list ← parse_expression fuel
  as_token ← consume keyword_as (bytes "Expected AS in UNWIND clause")
  alias ← consume identifier (bytes "Expected alias in UNWIND clause")
  pure (unwind list alias.text)

-- DELETE, or DETACH DELETE: both words are the same keyword, told apart by their text.
unfoldable pub parse_delete_clause : ℕ → Parser Clause
unfolding parse_delete_impl advance
parse_delete_clause fuel = do
  word ← advance
  let detach = eq_bytes (map to_upper word.text) (bytes "DETACH")
  second ←
      (if detach
        then consume keyword_delete (bytes "Expected 'DELETE' after 'DETACH'")
        else pure word)
  parse_delete_impl detach fuel

unfoldable pub parse_clause : ℕ → Parser Clause
unfolding parse_create parse_match parse_return parse_where parse_delete_clause parse_set
    parse_unwind
parse_clause fuel ts =
    if next_is keyword_create ts
    then parse_create fuel (rest_of ts)
    else if next_is keyword_match ts
    then parse_match fuel (rest_of ts)
    else if next_is keyword_return ts
    then parse_return fuel (rest_of ts)
    else if next_is keyword_where ts
    then parse_where fuel (rest_of ts)
    else if next_is keyword_delete ts
    then parse_delete_clause fuel ts
    else if next_is keyword_set ts
    then parse_set fuel (rest_of ts)
    else if next_is keyword_unwind ts
    then parse_unwind fuel (rest_of ts)
    else throw (bytes "Unexpected token at start of clause: " ++ (peek ts).text) ts

-- `parse`: clauses up to the end of the input.
unfoldable pub parse_clauses : ℕ → Tokens → Result Statement
unfolding parse_clause
parse_clauses zero ts = out_of_fuel
parse_clauses (suc fuel) ts =
    let more =
      bind (parse_clause fuel ts) λ (c, rest). bind (parse_clauses fuel rest) λ cs. ok (c ∷ cs) in
    if next_is eof ts then ok [] else more

unfoldable pub parse : Tokens → Result Statement
unfolding parse_clauses
parse ts = parse_clauses (3 * length ts + 3) ts

-- A query's text, lexed and parsed.
unfoldable pub parse_query : Bytes → Result Statement
unfolding parse
parse_query query = elim (tokenize query) [ none ↦ out_of_fuel | some ts ↦ parse ts ]
