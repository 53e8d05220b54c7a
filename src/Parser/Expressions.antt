-- ===== src/Parser/Expressions.antt =====
-- `parse_expression` and `parse_properties_map`. The flag of a loop says that it goes round again.
use tsurugi_graph.Base.{ℕ, zero, suc, true, false, ◌||◌, ◌++◌, Bytes, bytes, if◌then◌else◌}
use tsurugi_graph.Lexer.{
  identifier, string_literal, number_literal, lbracket, rbracket, lbrace, rbrace, colon, comma, dot,
  eof,
}
use tsurugi_graph.Ast.{
  Expression, Elements, Entries, variable, literal, property_access, list_literal, map_literal,
  no_elements, element, no_entries, set_entry,
}
use tsurugi_graph.Parser.Monad.{
  ok, out_of_fuel, bind, Parser, ◌>>=◌, ◌>>◌, pure, peek, next_is, rest_of, match, consume, throw,
}

-- Behind an identifier: a property access, or a variable.
unfoldable pub parse_name : Bytes → Parser Expression
unfolding throw
parse_name name ts =
    if next_is dot ts
    then (if next_is identifier (rest_of ts)
        then ok (property_access name (peek (rest_of ts)).text, rest_of (rest_of ts))
        else throw (bytes "Expected property name after '.'") (rest_of ts))
    else ok (variable name, ts)

-- What is neither a list nor a map.
unfoldable pub parse_atom : Parser Expression
unfolding parse_name throw
parse_atom ts =
    if next_is identifier ts
    then parse_name (peek ts).text (rest_of ts)
    else if next_is string_literal ts
    then ok (literal (peek ts).text true, rest_of ts)
    else if next_is number_literal ts
    then ok (literal (peek ts).text false, rest_of ts)
    else throw (bytes "Unexpected expression token: " ++ (peek ts).text) ts

unfoldable mutual
  pub parse_expression : ℕ → Parser Expression
  parse_expression zero ts = out_of_fuel
  parse_expression (suc fuel) ts =
      let as_list = bind (parse_elements fuel (rest_of ts)) λ (items, rest).
        bind (consume rbracket (bytes "Expected ']' in list literal") rest)
          λ (t, rest'). ok (list_literal items, rest') in
      let as_map = bind (parse_entries fuel no_entries (rest_of ts)) λ (items, rest).
        bind (consume rbrace (bytes "Expected '}' in map literal") rest)
          λ (t, rest'). ok (map_literal items, rest') in
      if next_is lbracket ts then as_list else if next_is lbrace ts then as_map else parse_atom ts

  -- The loop over the elements of a list literal.
  pub parse_elements : ℕ → Parser Elements
  parse_elements zero ts = out_of_fuel
  parse_elements (suc fuel) ts =
      let more = bind (parse_expression fuel ts) λ (e, rest).
        bind (match comma rest) λ (again, rest'). elim again [
          | true ↦ bind (parse_elements fuel rest') λ (es, end). ok (element e es, end)
          | false ↦ ok (element e no_elements, rest')
        ] in
      if next_is rbracket ts || next_is eof ts then ok (no_elements, ts) else more

  -- The loop over the entries of a map literal, on the map so far.
  pub parse_entries : ℕ → Entries → Parser Entries
  parse_entries zero map ts = out_of_fuel
  parse_entries (suc fuel) map ts =
      let more = bind (consume identifier (bytes "Expected key in map literal") ts) λ (key, rest).
        bind (consume colon (bytes "Expected ':' in map literal") rest) λ (t, rest1).
          bind (parse_expression fuel rest1) λ (e, rest2).
            bind (match comma rest2) λ (again, rest3). elim again [
              | true ↦ parse_entries fuel (set_entry key.text e map) rest3
              | false ↦ ok (set_entry key.text e map, rest3)
            ] in
      if next_is rbrace ts || next_is eof ts then ok (map, ts) else more

-- The loop of `parse_properties_map`: it does not stop at the end of the input.
unfoldable pub parse_properties : ℕ → Entries → Parser Entries
unfolding match consume
parse_properties zero map ts = out_of_fuel
parse_properties (suc fuel) map ts =
    let more = bind (consume identifier (bytes "Expected property key") ts) λ (key, rest).
      bind (consume colon (bytes "Expected ':'") rest) λ (t, rest1).
        bind (parse_expression fuel rest1) λ (e, rest2). bind (match comma rest2) λ (again, rest3).
          elim again [
            | true ↦ parse_properties fuel (set_entry key.text e map) rest3
            | false ↦ ok (set_entry key.text e map, rest3)
          ] in
    if next_is rbrace ts then ok (map, ts) else more

unfoldable pub parse_properties_map : ℕ → Parser Entries
parse_properties_map fuel = do
  consume lbrace (bytes "Expected '{'") >>= λ _. pure tt
  props ← parse_properties fuel no_entries
  consume rbrace (bytes "Expected '}'") >>= λ _. pure props
