-- ===== src/Tests/Values.antt =====
-- The byte formats and the statements.
use tsurugi_graph.Base.{
  ℕ, ◌+◌, ◌*◌, ◌-◌, ◌^◌, ◌≡◌, refl, true, false, none, List, [], ◌∷◌, ◌++◌, arith, Bytes, bytes,
  length, lt_bytes, take, drop, ◌≤◌, ◌↔◌,
}
use tsurugi_graph.Keys.{lt_bytes-encode_sortable_double, encode_sortable_double, double_lt}
use tsurugi_graph.Records.{
  decode_edge_overflow, unpack_ids-pack_ids, from_le, out_of_bounds, decode_edge, pack_ids, All64,
  unpack_ids,
}
use tsurugi_graph.Json.Parse.{parse_json_properties}
use tsurugi_graph.Json.Render.{render}
use tsurugi_graph.Json.RoundTrip.{Entry, texts, values, parse_json_properties-render}
use tsurugi_graph.Lexer.{tokenize, EndsAt, tokenize_total}
use tsurugi_graph.Parser.Clauses.{parse_query}
use tsurugi_graph.Parser.Answers.{IsAnswered, parse_query-IsAnswered}
use tsurugi_graph.Ast.{
  Statement, literal, property_access, binary, no_entries, entry, PatternPath, right_operand,
  create, where_clause,
}
use tsurugi_graph.Template.Literals.{extract_literals, bind_literals}
use tsurugi_graph.Template.Copy.{deep_copy_statement}
use tsurugi_graph.Template.Binding.{bind_literals-extract_literals}
use tsurugi_graph.Template.Rebinding.{extract_literals-bind_literals}
use tsurugi_graph.Template.Copies.{IsCompared, compared_value, deep_copy_statement_lem}

-- The bits of 1.0 and of -2.0.
abbrev one : ℕ
one = 1023 * 2 ^ 52

abbrev minus_two : ℕ
minus_two = 2 ^ 63 + 2 ^ 62

lt_bytes-encode_sortable_double_example :
    lt_bytes (encode_sortable_double minus_two) (encode_sortable_double one)
    ≡ double_lt minus_two one
lt_bytes-encode_sortable_double_example =
    lt_bytes-encode_sortable_double minus_two one (omega arith) (omega arith)

-- Two ids of 1, a size of 2 ^ 32 - 1, and 20 bytes of 0.
abbrev pub wide : Bytes
wide =
    0 ∷ 0 ∷ 0 ∷ 0 ∷ 0 ∷ 0 ∷ 0 ∷ 1 ∷ 0 ∷ 0 ∷ 0 ∷ 0 ∷ 0 ∷ 0 ∷ 0 ∷ 1 ∷ 255 ∷ 255 ∷ 255 ∷ 255 ∷ 0 ∷ 0
    ∷ 0 ∷ 0 ∷ 0 ∷ 0 ∷ 0 ∷ 0 ∷ 0 ∷ 0 ∷ 0 ∷ 0 ∷ 0 ∷ 0 ∷ 0 ∷ 0 ∷ 0 ∷ 0 ∷ 0 ∷ 0 ∷ []

abbrev three_ids : List ℕ
three_ids = 7 ∷ 300 ∷ 7 ∷ []

three_words : All64 three_ids
three_words = (omega arith, (omega arith, (omega arith, tt)))

unpack_three_ids : unpack_ids (pack_ids three_ids) ≡ three_ids
unpack_three_ids = unpack_ids-pack_ids three_ids three_words

parse_query-IsAnswered_example : IsAnswered (parse_query (bytes "MATCH (n) RETURN n"))
parse_query-IsAnswered_example = parse_query-IsAnswered (bytes "MATCH (n) RETURN n")

tokenize_total_example :
    EndsAt (length (bytes "MATCH (n) RETURN n")) (tokenize (bytes "MATCH (n) RETURN n"))
tokenize_total_example = tokenize_total (bytes "MATCH (n) RETURN n")

-- `CREATE ({name: 'Alice'}) WHERE n.age = 30`, as a tree.
abbrev person : PatternPath
person =
    record {
      node = record {
        variable = [];
        label = [];
        properties = entry (bytes "name") (literal (bytes "Alice") true) no_entries;
      };
      relationship = none;
    }
    ∷ []

abbrev query : Statement
query =
    create (person ∷ [])
    ∷ where_clause (record {
      condition =
          binary (property_access (bytes "n") (bytes "age")) (bytes "=")
            (literal (bytes "30") false);
      variable = bytes "n";
      property = bytes "age";
      op = bytes "=";
      value = right_operand;
    })
    ∷ []

bind_literals-extract_literals_example :
    bind_literals query (extract_literals query ++ bytes "x" ∷ []) ≡ query
bind_literals-extract_literals_example = bind_literals-extract_literals query (bytes "x" ∷ [])

two_literals : length (bytes "Bob" ∷ bytes "41" ∷ []) ≡ length (extract_literals query)
unfolding extract_literals
two_literals = refl

extract_literals-bind_literals_example :
    extract_literals (bind_literals query (bytes "Bob" ∷ bytes "41" ∷ []))
    ≡ bytes "Bob" ∷ bytes "41" ∷ []
extract_literals-bind_literals_example =
    extract_literals-bind_literals query (bytes "Bob" ∷ bytes "41" ∷ []) two_literals

deep_copy_statement_example : deep_copy_statement query ≡ query
unfolding IsCompared compared_value
deep_copy_statement_example = deep_copy_statement_lem query (tt, (refl, tt))

abbrev entries : List Entry
entries = (bytes "name", true, bytes "Alice") ∷ (bytes "age", false, bytes "30") ∷ []

size_of_wide : from_le (take 4 (drop 16 wide)) ≡ 2 ^ 32 - 1
unfolding from_le
size_of_wide = refl

decode_edge_overflow_example :
    (decode_edge wide ≡ out_of_bounds)
    ↔ ((20 ≤ length wide) × (2 ^ 32 ≤ 20 + from_le (take 4 (drop 16 wide))))
decode_edge_overflow_example = decode_edge_overflow wide (omega (arith, size_of_wide))

-- The wide size is read behind the end.
wide_out_of_bounds : decode_edge wide ≡ out_of_bounds
wide_out_of_bounds =
    (decode_edge_overflow wide (omega (arith, size_of_wide))).1
      (omega arith, omega (arith, size_of_wide))

parse_json_properties-render_example :
    parse_json_properties (render (texts entries)) ≡ values entries
parse_json_properties-render_example = parse_json_properties-render entries (
  ((refl, (refl, (refl, (refl, tt)))), (refl, (refl, (refl, (refl, (refl, tt)))))),
  (((refl, (refl, (refl, tt))), (refl, (refl, (refl, tt)))), tt),
)
