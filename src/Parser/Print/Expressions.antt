-- ===== src/Parser/Print/Expressions.antt =====
-- `parse_expression` and `parse_properties_map` on printed tokens.
use tsurugi_graph.Base.{
  ℕ, zero, suc, ◌+◌, ◌*◌, ◌<◌, ◌≤◌, ◌≡◌, refl, ◌||◌, true, false, ◌∷◌, arith, length,
}
use tsurugi_graph.Lexer.{rbracket, rbrace, comma, dot, eof}
use tsurugi_graph.Ast.{
  Expression, Elements, Entries, variable, literal, property_access, binary, list_literal,
  map_literal, no_elements, element, no_entries, entry, set_entry,
}
use tsurugi_graph.Parser.Monad.{ok, Tokens, next_is, match, consume}
use tsurugi_graph.Parser.Expressions.{
  parse_name, parse_atom, parse_expression, parse_elements, parse_entries, parse_properties,
}
use tsurugi_graph.Parser.Print.{
  token_of, symbol, print_expression, print_elements, print_entries, IsPrintable, ArePrintable,
  HasPrintable,
}
use tsurugi_graph.Parser.Print.Maps.{set_all, set_all-IsMap}

mutual
  unfolding print_expression print_elements print_entries

  pub length-print_expression :
      (e : Expression) (rest : Tokens) → length rest < length (print_expression e rest)
  length-print_expression (variable n) rest = omega arith
  length-print_expression (literal v s) rest = omega arith
  length-print_expression (property_access v k) rest = omega arith
  length-print_expression (binary l op r) rest = omega (
    arith,
    length-print_expression l (token_of _ op ∷ print_expression r rest),
    length-print_expression r rest,
  )
  length-print_expression (list_literal es) rest =
      omega (arith, length-print_elements es (symbol rbracket ∷ rest))
  length-print_expression (map_literal es) rest =
      omega (arith, length-print_entries es (symbol rbrace ∷ rest))

  length-print_elements :
      (es : Elements) (rest : Tokens) → length rest ≤ length (print_elements es rest)
  length-print_elements no_elements rest = omega arith
  length-print_elements (element e no_elements) rest = omega (arith, length-print_expression e rest)
  length-print_elements (element e (element f es)) rest = omega (
    arith,
    length-print_expression e (symbol comma ∷ print_elements (element f es) rest),
    length-print_elements (element f es) rest,
  )

  pub length-print_entries :
      (es : Entries) (rest : Tokens) → length rest ≤ length (print_entries es rest)
  length-print_entries no_entries rest = omega arith
  length-print_entries (entry k e no_entries) rest = omega (arith, length-print_expression e rest)
  length-print_entries (entry k e (entry j d es)) rest = omega (
    arith,
    length-print_expression e (symbol comma ∷ print_entries (entry j d es) rest),
    length-print_entries (entry j d es) rest,
  )

-- An expression does not begin like the end of a list.
print_expression-first :
    (e : Expression) (rest : Tokens)
    → IsPrintable e
    → (next_is rbracket (print_expression e rest) || next_is eof (print_expression e rest)) ≡ false
unfolding print_expression IsPrintable
print_expression-first (variable n) rest h = refl
print_expression-first (literal v true) rest h = refl
print_expression-first (literal v false) rest h = refl
print_expression-first (property_access v k) rest h = refl
print_expression-first (binary l op r) rest h = elim h [ ]
print_expression-first (list_literal es) rest h = refl
print_expression-first (map_literal es) rest h = refl

mutual
  unfolding print_expression print_elements print_entries IsPrintable ArePrintable HasPrintable
      parse_expression parse_elements parse_entries parse_atom parse_name match consume set_all

  pub parse-print_expression :
      (fuel : ℕ) (e : Expression) (rest : Tokens)
      → IsPrintable e
      → next_is dot rest ≡ false
      → 2 * length (print_expression e rest) < fuel
      → parse_expression fuel (print_expression e rest) ≡ ok (e, rest)
  parse-print_expression zero e rest h d n = absurd (omega arith)
  parse-print_expression (suc fuel) (variable name) rest h d n = rw d refl
  parse-print_expression (suc fuel) (literal v true) rest h d n = refl
  parse-print_expression (suc fuel) (literal v false) rest h d n = refl
  parse-print_expression (suc fuel) (property_access v k) rest h d n = refl
  parse-print_expression (suc fuel) (binary l op r) rest h d n = elim h [ ]
  parse-print_expression (suc fuel) (list_literal es) rest h d n =
      rw (parse-print_elements fuel es rest h (omega arith)) refl
  parse-print_expression (suc fuel) (map_literal es) rest h d n =
      rw (parse-print_entries fuel es no_entries rest h.0 (omega arith))
        (rw (set_all-IsMap es h.1) refl)

  parse-print_elements :
      (fuel : ℕ) (es : Elements) (rest : Tokens)
      → ArePrintable es
      → 2 * length (print_elements es (symbol rbracket ∷ rest)) + 1 < fuel
      → parse_elements fuel (print_elements es (symbol rbracket ∷ rest))
        ≡ ok (es, symbol rbracket ∷ rest)
  parse-print_elements zero es rest h n = absurd (omega arith)
  parse-print_elements (suc fuel) no_elements rest h n = refl
  parse-print_elements (suc fuel) (element e no_elements) rest h n =
      rw (print_expression-first e (symbol rbracket ∷ rest) h.0)
        (rw (parse-print_expression fuel e (symbol rbracket ∷ rest) h.0 refl (omega arith)) refl)
  parse-print_elements (suc fuel) (element e (element f es)) rest h n =
      let after = symbol comma ∷ print_elements (element f es) (symbol rbracket ∷ rest) in
      rw (print_expression-first e after h.0) (
        rw (parse-print_expression fuel e after h.0 refl (omega arith)) (
          rw
            (parse-print_elements fuel (element f es) rest h.1
              (omega (arith, length-print_expression e after)))
            refl))

  parse-print_entries :
      (fuel : ℕ) (es m : Entries) (rest : Tokens)
      → HasPrintable es
      → 2 * length (print_entries es (symbol rbrace ∷ rest)) + 1 < fuel
      → parse_entries fuel m (print_entries es (symbol rbrace ∷ rest))
        ≡ ok (set_all es m, symbol rbrace ∷ rest)
  parse-print_entries zero es m rest h n = absurd (omega arith)
  parse-print_entries (suc fuel) no_entries m rest h n = refl
  parse-print_entries (suc fuel) (entry k e no_entries) m rest h n =
      rw (parse-print_expression fuel e (symbol rbrace ∷ rest) h.0 refl (omega arith)) refl
  parse-print_entries (suc fuel) (entry k e (entry j d es)) m rest h n =
      let after = symbol comma ∷ print_entries (entry j d es) (symbol rbrace ∷ rest) in
      rw (parse-print_expression fuel e after h.0 refl (omega arith)) (
        parse-print_entries fuel (entry j d es) (set_entry k e m) rest h.1
          (omega (arith, length-print_expression e after)))

-- The properties of a pattern.
pub parse_properties-print :
    (fuel : ℕ) (es m : Entries) (rest : Tokens)
    → HasPrintable es
    → 2 * length (print_entries es (symbol rbrace ∷ rest)) + 1 < fuel
    → parse_properties fuel m (print_entries es (symbol rbrace ∷ rest))
      ≡ ok (set_all es m, symbol rbrace ∷ rest)
unfolding print_entries HasPrintable parse_properties match consume set_all
parse_properties-print zero es m rest h n = absurd (omega arith)
parse_properties-print (suc fuel) no_entries m rest h n = refl
parse_properties-print (suc fuel) (entry k e no_entries) m rest h n =
    rw (parse-print_expression fuel e (symbol rbrace ∷ rest) h.0 refl (omega arith)) refl
parse_properties-print (suc fuel) (entry k e (entry j d es)) m rest h n =
    let after = symbol comma ∷ print_entries (entry j d es) (symbol rbrace ∷ rest) in
    rw (parse-print_expression fuel e after h.0 refl (omega arith)) (
      parse_properties-print fuel (entry j d es) (set_entry k e m) rest h.1
        (omega (arith, length-print_expression e after)))
