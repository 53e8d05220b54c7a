-- ===== src/Parser/Print.antt =====
-- The tokens of a statement: what the parser is to read back.
pub mod Maps
pub mod Expressions
pub mod Patterns
pub mod Paths
pub mod Clauses
pub mod Items
pub mod RoundTrip
use tsurugi_graph.Base.{◌≡◌, Bool, true, false, List, [], ◌∷◌, Bytes, if◌then◌else◌, lt_bytes, ◌==◌}
use tsurugi_graph.Lexer.{
  Token, TokenType, identifier, string_literal, number_literal, lbracket, rbracket, lbrace, rbrace,
  colon, comma, dot, equals, less_than, greater_than,
}
use tsurugi_graph.Ast.{
  Expression, Elements, Entries, variable, literal, property_access, binary, list_literal,
  map_literal, no_elements, element, no_entries, entry,
}
use tsurugi_graph.Parser.Monad.{Tokens}

abbrev pub token_of : TokenType → Bytes → Token
token_of type text = record { type = type; text = text; position = 0 }

abbrev pub symbol : TokenType → Token
symbol type = token_of type []

-- The type of an operator's token, by its first byte.
abbrev operator_type : Bytes → TokenType
operator_type [] = equals
operator_type (c ∷ s) = if c == 60 then less_than else if c == 62 then greater_than else equals

abbrev pub literal_type : Bool → TokenType
literal_type true = string_literal
literal_type false = number_literal

-- Each puts its tokens before those that follow.
unfoldable mutual
  pub print_expression : Expression → Tokens → Tokens
  print_expression (variable n) rest = token_of identifier n ∷ rest
  print_expression (literal v s) rest = token_of (literal_type s) v ∷ rest
  print_expression (property_access v k) rest =
      token_of identifier v ∷ symbol dot ∷ token_of identifier k ∷ rest
  print_expression (binary l op r) rest =
      print_expression l (token_of (operator_type op) op ∷ print_expression r rest)
  print_expression (list_literal es) rest =
      symbol lbracket ∷ print_elements es (symbol rbracket ∷ rest)
  print_expression (map_literal es) rest = symbol lbrace ∷ print_entries es (symbol rbrace ∷ rest)

  pub print_elements : Elements → Tokens → Tokens
  print_elements no_elements rest = rest
  print_elements (element e no_elements) rest = print_expression e rest
  print_elements (element e (element f es)) rest =
      print_expression e (symbol comma ∷ print_elements (element f es) rest)

  pub print_entries : Entries → Tokens → Tokens
  print_entries no_entries rest = rest
  print_entries (entry k e no_entries) rest =
      token_of identifier k ∷ symbol colon ∷ print_expression e rest
  print_entries (entry k e (entry j d es)) rest =
      token_of identifier k
      ∷ symbol colon
      ∷ print_expression e (symbol comma ∷ print_entries (entry j d es) rest)

-- All keys are above one.
abbrev pub Above : Bytes → Entries → Type 0
Above k no_entries = Unit
Above k (entry j e es) = (lt_bytes k j ≡ true) × Above k es

-- The order of a `std::map`.
abbrev pub IsMap : Entries → Type 0
IsMap no_entries = Unit
IsMap (entry k e es) = Above k es × IsMap es

-- A list, a map with its keys in order, a name or a literal: the grammar has no comparisons inside
-- an expression.
unfoldable mutual
  pub IsPrintable : Expression → Type 0
  IsPrintable (variable n) = Unit
  IsPrintable (literal v s) = Unit
  IsPrintable (property_access v k) = Unit
  IsPrintable (binary l op r) = ⊥
  IsPrintable (list_literal es) = ArePrintable es
  IsPrintable (map_literal es) = HasPrintable es × IsMap es

  pub ArePrintable : Elements → Type 0
  ArePrintable no_elements = Unit
  ArePrintable (element e es) = IsPrintable e × ArePrintable es

  pub HasPrintable : Entries → Type 0
  HasPrintable no_entries = Unit
  HasPrintable (entry k e es) = IsPrintable e × HasPrintable es
