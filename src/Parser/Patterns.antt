-- ===== src/Parser/Patterns.antt =====
-- `parse_pattern_path`, `parse_node_pattern` and `parse_relationship_pattern`.
use tsurugi_graph.Base.{
  ℕ, zero, suc, Bool, true, ◌||◌, none, some, [], ◌∷◌, Bytes, bytes, if◌then◌else◌,
}
use tsurugi_graph.Lexer.{
  lparen, rparen, lbracket, rbracket, lbrace, colon, dash, arrow_left, arrow_right,
}
use tsurugi_graph.Ast.{Entries, no_entries, PatternNode, PatternRelationship, PatternPath}
use tsurugi_graph.Parser.Monad.{
  ok, out_of_fuel, bind, Parser, ◌>>=◌, pure, next_is, match, consume, looking_at,
  optional_identifier,
}
use tsurugi_graph.Parser.Expressions.{parse_properties_map}

-- `if (match(colon)) { if (peek().type == identifier) ... }`
unfoldable pub optional_label : Parser Bytes
optional_label = do has_colon ← match colon; (if has_colon then optional_identifier else pure [])

-- `if (peek().type == lbrace) properties = parse_properties_map();`
unfoldable pub optional_properties : ℕ → Parser Entries
optional_properties fuel = do
  has_map ← looking_at lbrace
  (if has_map then parse_properties_map fuel else pure no_entries)

unfoldable pub parse_node_pattern : ℕ → Parser PatternNode
unfolding optional_label optional_properties
parse_node_pattern fuel = do
  opening ← consume lparen (bytes "Expected '(' for node")
  name ← optional_identifier
  label ← optional_label
  props ← optional_properties fuel
  closing ← consume rparen (bytes "Expected ')' for node")
  pure (record { variable = name; label = label; properties = props })

-- What stands in the brackets: the variable, the type and the properties.
unfoldable pub relationship_body : ℕ → Parser (Bytes × Bytes × Entries)
unfolding optional_label optional_properties
relationship_body fuel = do
  name ← optional_identifier
  type ← optional_label
  props ← optional_properties fuel
  closing ← consume rbracket (bytes "Expected ']'")
  pure (name, type, props)

unfoldable pub parse_relationship_detail : ℕ → Parser (Bytes × Bytes × Entries)
unfolding relationship_body
parse_relationship_detail fuel = do
  bracket ← match lbracket
  (if bracket then relationship_body fuel else pure ([], [], no_entries))

unfoldable pub direction_of : Bool → Bool → Bytes
direction_of left_arrow right_arrow =
    if left_arrow then bytes "<-" else if right_arrow then bytes "->" else bytes "-"

unfoldable pub parse_relationship_pattern : ℕ → Parser PatternRelationship
unfolding parse_relationship_detail direction_of
parse_relationship_pattern fuel = do
  left_arrow ← match arrow_left
  leading ← (if left_arrow then pure true else match dash)
  detail ← parse_relationship_detail fuel
  right_arrow ← match arrow_right
  trailing ← (if right_arrow then pure true else match dash)
  pure (record {
    variable = detail.0;
    type = detail.1;
    direction = direction_of left_arrow right_arrow;
    properties = detail.2;
  })

-- The loop over the relationships, behind a node.
unfoldable pub parse_hops : ℕ → PatternNode → Parser PatternPath
unfolding parse_relationship_pattern parse_node_pattern
parse_hops zero node ts = out_of_fuel
parse_hops (suc fuel) node ts =
    let more = bind (parse_relationship_pattern fuel ts) λ (rel, rest).
      bind (parse_node_pattern fuel rest) λ (next, rest1).
        bind (parse_hops fuel next rest1)
          λ (path, rest2). ok (record { node = node; relationship = some rel } ∷ path, rest2) in
    if next_is dash ts || next_is arrow_left ts
    then more
    else ok (record { node = node; relationship = none } ∷ [], ts)

unfoldable pub parse_pattern_path : ℕ → Parser PatternPath
unfolding parse_hops parse_node_pattern
parse_pattern_path fuel = do node ← parse_node_pattern fuel; parse_hops fuel node
