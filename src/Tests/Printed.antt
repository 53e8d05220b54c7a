-- ===== src/Tests/Printed.antt =====
-- A statement with the clauses of the language, printed as tokens and parsed.
use tsurugi_graph.Base.{◌≡◌, refl, inl, inr, true, false, none, some, [], ◌∷◌, bytes, All}
use tsurugi_graph.Ast
use tsurugi_graph.Ast.{
  Expression, Statement, PatternNode, PatternRelationship, PatternPath, variable, literal,
  property_access, list_literal, map_literal, element, no_elements, entry, no_entries,
  return_clause, where_clause, delete_clause, set_clause, unwind,
}
use tsurugi_graph.Parser.Monad.{ok}
use tsurugi_graph.Parser.Clauses.{parse, comparison}
use tsurugi_graph.Parser.Print.{IsPrintable, ArePrintable, HasPrintable}
use tsurugi_graph.Parser.Print.Clauses.{IsClause, print_statement}
use tsurugi_graph.Parser.Print.RoundTrip.{parse-print_statement}

abbrev person : PatternNode
person = record {
  variable = bytes "n";
  label = bytes "P";
  properties = entry (bytes "a") (literal (bytes "x") true) no_entries;
}

abbrev anyone : PatternNode
anyone = record { variable = bytes "m"; label = []; properties = no_entries }

abbrev knows : PatternRelationship
knows = record { variable = []; type = bytes "K"; direction = bytes "->"; properties = no_entries }

abbrev path : PatternPath
path =
    record { node = person; relationship = some knows }
    ∷ record { node = anyone; relationship = none }
    ∷ []

abbrev statement : Statement
statement =
    Ast.match (path ∷ [])
    ∷ where_clause (
        comparison (property_access (bytes "n") (bytes "a")) (bytes ">=")
          (literal (bytes "1") false))
    ∷ set_clause (
        record { variable = bytes "n"; property = bytes "a"; value = literal (bytes "2") false }
        ∷ [])
    ∷ delete_clause (bytes "m" ∷ bytes "k" ∷ []) true
    ∷ unwind
        (list_literal
          (element (map_literal (entry (bytes "a") (variable (bytes "v")) no_entries)) no_elements))
        (bytes "y")
    ∷ return_clause (record { expr = variable (bytes "n"); alias = bytes "b" } ∷ [])
    ∷ []

statement_is_printable : All IsClause statement
unfolding IsPrintable ArePrintable HasPrintable comparison
statement_is_printable =
    let field : (Unit {0} × Unit {0}) × (Unit {0} × Unit {0}) = ((tt, tt), (tt, tt)) in
    (
      (tt, ((field, (knows, refl, (tt, tt), inr (inl refl)), ((tt, tt), refl)), tt)),
      (
        (tt, tt, refl),
        ((tt, (tt, tt)), ((tt, (tt, (tt, tt))), ((field, tt), ((tt, (tt, tt)), tt)))),
      ),
    )

parse-print_statement_example : parse (print_statement statement) ≡ ok statement
parse-print_statement_example = parse-print_statement statement statement_is_printable
