-- ===== src/Parser/Print/Patterns.antt =====
-- The patterns as tokens, and `parse_node_pattern` on them.
use tsurugi_graph.Base.{
  ℕ, ◌*◌, ◌<◌, ◌≤◌, ◌≡◌, refl, ◌⊎◌, Bool, true, false, Option, none, some, [], ◌∷◌, arith, Bytes,
  bytes, length, eq_bytes, if◌then◌else◌,
}
use tsurugi_graph.Lexer.{
  TokenType, identifier, lparen, rparen, lbracket, rbracket, lbrace, rbrace, colon, dash,
  arrow_left, arrow_right,
}
use tsurugi_graph.Ast.{Entries, no_entries, entry, PatternNode, PatternRelationship, PatternPath}
use tsurugi_graph.Parser.Monad.{
  Result, ok, bind, Tokens, next_is, match, consume, looking_at, optional_identifier,
}
use tsurugi_graph.Parser.Expressions.{parse_properties_map}
use tsurugi_graph.Parser.Patterns.{optional_label, optional_properties, parse_node_pattern}
use tsurugi_graph.Parser.Print.{token_of, symbol, print_entries, HasPrintable, IsMap}
use tsurugi_graph.Parser.Print.Maps.{set_all-IsMap}
use tsurugi_graph.Parser.Print.Expressions.{length-print_entries, parse_properties-print}

unfoldable pub print_name : Bytes → Tokens → Tokens
print_name [] rest = rest
print_name (c ∷ s) rest = token_of identifier (c ∷ s) ∷ rest

unfoldable pub print_label : Bytes → Tokens → Tokens
print_label [] rest = rest
print_label (c ∷ s) rest = symbol colon ∷ token_of identifier (c ∷ s) ∷ rest

unfoldable pub print_properties : Entries → Tokens → Tokens
print_properties no_entries rest = rest
print_properties (entry k e es) rest =
    symbol lbrace ∷ print_entries (entry k e es) (symbol rbrace ∷ rest)

-- The bracket that closes a node, or a relationship.
abbrev pub closing : Bool → TokenType
closing true = rparen
closing false = rbracket

-- What stands in the brackets, with the closing one.
unfoldable pub print_inside : Bytes → Bytes → Entries → Bool → Tokens → Tokens
unfolding print_name print_label print_properties
print_inside name label props in_node rest =
    print_name name (print_label label (print_properties props (symbol (closing in_node) ∷ rest)))

unfoldable pub print_node : PatternNode → Tokens → Tokens
unfolding print_inside
print_node n rest = symbol lparen ∷ print_inside n.variable n.label n.properties true rest

abbrev pub first_arrow : Bytes → TokenType
first_arrow d = if eq_bytes d (bytes "<-") then arrow_left else dash

abbrev pub last_arrow : Bytes → TokenType
last_arrow d = if eq_bytes d (bytes "->") then arrow_right else dash

unfoldable pub print_relationship : PatternRelationship → Tokens → Tokens
unfolding print_inside
print_relationship r rest =
    symbol (first_arrow r.direction)
    ∷ symbol lbracket
    ∷ print_inside r.variable r.type r.properties false (symbol (last_arrow r.direction) ∷ rest)

abbrev pub print_link : Option PatternRelationship → Tokens → Tokens
print_link none rest = rest
print_link (some r) rest = print_relationship r rest

unfoldable pub print_path : PatternPath → Tokens → Tokens
unfolding print_node print_relationship
print_path [] rest = rest
print_path (e ∷ es) rest = print_node e.node (print_link e.relationship (print_path es rest))

abbrev pub IsProperties : Entries → Type 0
IsProperties es = HasPrintable es × IsMap es

abbrev pub IsDirection : Bytes → Type 0
IsDirection d = (d ≡ bytes "<-") ⊎ (d ≡ bytes "->") ⊎ (d ≡ bytes "-")

-- Every node but the last has a relationship behind it.
abbrev pub IsPath : PatternPath → Type 0
IsPath [] = ⊥
IsPath (e ∷ []) = IsProperties e.node.properties × (e.relationship ≡ none)
IsPath (e ∷ f ∷ es) =
    IsProperties e.node.properties
    × ((r : PatternRelationship) × (e.relationship ≡ some r)
        × IsProperties r.properties
        × IsDirection r.direction)
    × IsPath (f ∷ es)

optional_identifier-print :
    (name : Bytes) (rest : Tokens)
    → next_is identifier rest ≡ false
    → optional_identifier (print_name name rest) ≡ ok (name, rest)
unfolding print_name optional_identifier
optional_identifier-print [] rest h = rw h refl
optional_identifier-print (c ∷ s) rest h = refl

optional_label-print :
    (label : Bytes) (rest : Tokens)
    → next_is colon rest ≡ false
    → optional_label (print_label label rest) ≡ ok (label, rest)
unfolding print_label optional_label match optional_identifier
optional_label-print [] rest h = rw h refl
optional_label-print (c ∷ s) rest h = refl

optional_properties-print :
    (fuel : ℕ) (props : Entries) (rest : Tokens)
    → IsProperties props
    → next_is lbrace rest ≡ false
    → 2 * length (print_properties props rest) < fuel
    → optional_properties fuel (print_properties props rest) ≡ ok (props, rest)
unfolding print_properties optional_properties parse_properties_map looking_at consume
optional_properties-print fuel no_entries rest h d n = rw d refl
optional_properties-print fuel (entry k e es) rest h d n =
    rw (parse_properties-print fuel (entry k e es) no_entries rest h.0 (omega arith))
      (rw (set_all-IsMap (entry k e es) h.1) refl)

-- What follows is none of the optional parts before it.
properties_first :
    (type : TokenType) (props : Entries) (in_node : Bool) (rest : Tokens)
    → next_is type (symbol lbrace ∷ []) ≡ false
    → next_is type (symbol rparen ∷ []) ≡ false
    → next_is type (symbol rbracket ∷ []) ≡ false
    → next_is type (print_properties props (symbol (closing in_node) ∷ rest)) ≡ false
unfolding print_properties
properties_first type no_entries true rest b p c = p
properties_first type no_entries false rest b p c = c
properties_first type (entry k e es) in_node rest b p c = b

label_first :
    (label : Bytes) (props : Entries) (in_node : Bool) (rest : Tokens)
    → next_is identifier
        (print_label label (print_properties props (symbol (closing in_node) ∷ rest)))
      ≡ false
unfolding print_label
label_first [] props in_node rest = properties_first identifier props in_node rest refl refl refl
label_first (c ∷ s) props in_node rest = refl

closing_first :
    (in_node : Bool) (rest : Tokens) → next_is lbrace (symbol (closing in_node) ∷ rest) ≡ false
closing_first true rest = refl
closing_first false rest = refl

length-print_name : (name : Bytes) (rest : Tokens) → length rest ≤ length (print_name name rest)
unfolding print_name
length-print_name [] rest = omega arith
length-print_name (c ∷ s) rest = omega arith

length-print_label : (label : Bytes) (rest : Tokens) → length rest ≤ length (print_label label rest)
unfolding print_label
length-print_label [] rest = omega arith
length-print_label (c ∷ s) rest = omega arith

length-print_properties :
    (props : Entries) (rest : Tokens) → length rest ≤ length (print_properties props rest)
unfolding print_properties
length-print_properties no_entries rest = omega arith
length-print_properties (entry k e es) rest =
    omega (arith, length-print_entries (entry k e es) (symbol rbrace ∷ rest))

pub length-print_inside :
    (name label : Bytes) (props : Entries) (in_node : Bool) (rest : Tokens)
    → length rest < length (print_inside name label props in_node rest)
unfolding print_inside
length-print_inside name label props in_node rest =
    let end = symbol (closing in_node) ∷ rest in
    omega (
      arith,
      length-print_name name (print_label label (print_properties props end)),
      length-print_label label (print_properties props end),
      length-print_properties props end,
    )

-- The three optional parts are read off, whatever is done with them.
pub inside_lem {ℓ} :
    {B : Type ℓ} (fuel : ℕ) (name label : Bytes) (props : Entries) (in_node : Bool) (rest : Tokens)
    (go : Bytes → Bytes → Entries → Tokens → Result B)
    → IsProperties props
    → 2 * length (print_inside name label props in_node rest) < fuel
    → bind (optional_identifier (print_inside name label props in_node rest)) (λ (n, r).
      bind (optional_label r) λ (l, r1). bind (optional_properties fuel r1) λ (p, r2). go n l p r2)
      ≡ go name label props (symbol (closing in_node) ∷ rest)
unfolding print_inside
inside_lem fuel name label props in_node rest go h n =
    let end = symbol (closing in_node) ∷ rest in
    let second = print_properties props end in
    let first = print_label label second in
    rw (optional_identifier-print name first (label_first label props in_node rest)) (
      rw
        (optional_label-print label second
          (properties_first colon props in_node rest refl refl refl))
        (rw
          (optional_properties-print fuel props end h (closing_first in_node rest)
            (omega (arith, length-print_name name first, length-print_label label second)))
          refl))

pub length-print_node :
    (node : PatternNode) (rest : Tokens) → length rest < length (print_node node rest)
unfolding print_node
length-print_node node rest =
    omega (arith, length-print_inside node.variable node.label node.properties true rest)

pub parse_node_pattern-print :
    (fuel : ℕ) (node : PatternNode) (rest : Tokens)
    → IsProperties node.properties
    → 2 * length (print_node node rest) < fuel
    → parse_node_pattern fuel (print_node node rest) ≡ ok (node, rest)
unfolding print_node parse_node_pattern consume
parse_node_pattern-print fuel node rest h n =
    inside_lem fuel node.variable node.label node.properties true rest _ h (omega arith)
