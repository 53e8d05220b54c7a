-- ===== src/Parser/Print/Clauses.antt =====
-- The clauses and statements as tokens.
use tsurugi_graph.Base.{◌≡◌, ◌||◌, true, false, List, [], ◌∷◌, Bytes, bytes, All}
use tsurugi_graph.Lexer.{
  identifier, comma, dot, dash, arrow_left, equals, less_than, greater_than, keyword_create,
  keyword_match, keyword_return, keyword_where, keyword_as, keyword_delete, keyword_set,
  keyword_unwind,
}
use tsurugi_graph.Ast
use tsurugi_graph.Ast.{
  Expression, variable, literal, property_access, binary, list_literal, map_literal, PatternPath,
  ReturnItem, Assignment, WhereClause, Clause, Statement, return_clause, where_clause,
  delete_clause, set_clause, unwind,
}
use tsurugi_graph.Parser.Monad.{Tokens, eof_token, next_is}
use tsurugi_graph.Parser.Clauses.{comparison, plain_condition}
use tsurugi_graph.Parser.Print.{token_of, symbol, print_expression, IsPrintable}
use tsurugi_graph.Parser.Print.Patterns.{print_path, IsPath}

-- With commas between.
unfoldable pub print_list {ℓ} : {A : Type ℓ} → (A → Tokens → Tokens) → List A → Tokens → Tokens
print_list print [] rest = rest
print_list print (x ∷ []) rest = print x rest
print_list print (x ∷ y ∷ xs) rest = print x (symbol comma ∷ print_list print (y ∷ xs) rest)

abbrev pub print_alias : Bytes → Tokens → Tokens
print_alias [] rest = rest
print_alias (c ∷ s) rest = symbol keyword_as ∷ token_of identifier (c ∷ s) ∷ rest

unfoldable pub print_return_item : ReturnItem → Tokens → Tokens
print_return_item i rest = print_expression i.expr (print_alias i.alias rest)

unfoldable pub print_variable : Bytes → Tokens → Tokens
print_variable v rest = token_of identifier v ∷ rest

unfoldable pub print_assignment : Assignment → Tokens → Tokens
print_assignment a rest =
    token_of identifier a.variable
    ∷ symbol dot
    ∷ token_of identifier a.property
    ∷ symbol equals
    ∷ print_expression a.value rest

unfoldable pub print_clause : Clause → Tokens → Tokens
unfolding print_list print_return_item print_variable print_assignment
print_clause (Ast.create paths) rest = symbol keyword_create ∷ print_list print_path paths rest
print_clause (Ast.match paths) rest = symbol keyword_match ∷ print_list print_path paths rest
print_clause (return_clause items) rest =
    symbol keyword_return ∷ print_list print_return_item items rest
print_clause (where_clause w) rest = symbol keyword_where ∷ print_expression w.condition rest
print_clause (delete_clause variables false) rest =
    token_of keyword_delete (bytes "DELETE") ∷ print_list print_variable variables rest
print_clause (delete_clause variables true) rest =
    token_of keyword_delete (bytes "DETACH")
    ∷ token_of keyword_delete (bytes "DELETE")
    ∷ print_list print_variable variables rest
print_clause (set_clause assignments) rest =
    symbol keyword_set ∷ print_list print_assignment assignments rest
print_clause (unwind list alias) rest =
    symbol keyword_unwind
    ∷ print_expression list (symbol keyword_as ∷ token_of identifier alias ∷ rest)

unfoldable pub print_statement : Statement → Tokens
unfolding print_clause
print_statement [] = eof_token ∷ []
print_statement (c ∷ cs) = print_clause c (print_statement cs)

abbrev pub IsSome {ℓ} : {A : Type ℓ} → List A → Type 0
IsSome [] = ⊥
IsSome (x ∷ xs) = Unit

-- A comparison has the legacy fields that the parser fills in, and any other condition has none.
abbrev pub IsCondition : Expression → WhereClause → Type 0
IsCondition (binary l op r) w = IsPrintable l × IsPrintable r × (w ≡ comparison l op r)
IsCondition (variable n) w = w ≡ plain_condition (variable n)
IsCondition (literal v s) w = w ≡ plain_condition (literal v s)
IsCondition (property_access v k) w = w ≡ plain_condition (property_access v k)
IsCondition (list_literal es) w =
    IsPrintable (list_literal es) × (w ≡ plain_condition (list_literal es))
IsCondition (map_literal es) w =
    IsPrintable (map_literal es) × (w ≡ plain_condition (map_literal es))

-- What the parser can give: no empty list of items, and expressions of the grammar.
abbrev pub IsClause : Clause → Type 0
IsClause (Ast.create paths) = IsSome paths × All IsPath paths
IsClause (Ast.match paths) = IsSome paths × All IsPath paths
IsClause (return_clause items) = IsSome items × All (λ i. IsPrintable i.expr) items
IsClause (where_clause w) = IsCondition w.condition w
IsClause (delete_clause variables detach) = IsSome variables × All (λ v. Unit {0}) variables
IsClause (set_clause assignments) = IsSome assignments × All (λ a. IsPrintable a.value) assignments
IsClause (unwind list alias) = IsPrintable list

-- No token that an item could go on with.
abbrev pub IsStop : Tokens → Type 0
IsStop rest =
    (next_is dot rest ≡ false)
    × ((next_is dash rest || next_is arrow_left rest) ≡ false)
    × (next_is keyword_as rest ≡ false)
    × ((next_is equals rest || next_is less_than rest || next_is greater_than rest) ≡ false)
