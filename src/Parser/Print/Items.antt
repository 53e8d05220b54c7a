-- ===== src/Parser/Print/Items.antt =====
-- The items of a clause, and a list of them with commas between.
use tsurugi_graph.Base.{
  ℕ, zero, suc, ◌+◌, ◌*◌, ◌<◌, ◌≤◌, ◌≡◌, refl, false, List, [], ◌∷◌, arith, Bytes, length, All,
}
use tsurugi_graph.Lexer.{comma}
use tsurugi_graph.Ast.{Expression}
use tsurugi_graph.Parser.Monad.{ok, Tokens, Parser, next_is, match, consume, optional_identifier}
use tsurugi_graph.Parser.Patterns.{parse_pattern_path}
use tsurugi_graph.Parser.Clauses.{
  separated, parse_return_item, parse_variable_name, parse_assignment,
}
use tsurugi_graph.Parser.Print.{symbol, print_expression, IsPrintable}
use tsurugi_graph.Parser.Print.Expressions.{parse-print_expression, length-print_expression}
use tsurugi_graph.Parser.Print.Patterns.{print_path, IsPath}
use tsurugi_graph.Parser.Print.Paths.{parse_pattern_path-print, length-print_path}
use tsurugi_graph.Parser.Print.Clauses.{
  print_list, print_alias, print_return_item, print_variable, print_assignment, IsSome, IsStop,
}

-- An item parser that reads back what is printed, before any stop.
pub record ReadsItems {ℓ} {A : Type ℓ} (P : A → Type 0) (print : A → Tokens → Tokens)
    (item : ℕ → Parser A) : Type ℓ where
  pub reads :
      (fuel : ℕ) (x : A) (rest : Tokens)
      → P x
      → IsStop rest
      → 2 * length (print x rest) < fuel
      → item fuel (print x rest) ≡ ok (x, rest)
  pub takes : (x : A) (rest : Tokens) → P x → length rest < length (print x rest)

module _ {ℓ} {A : Type ℓ} (P : A → Type 0) (print : A → Tokens → Tokens) (item : ℕ → Parser A)
    (back : ReadsItems P print item) where
  pub separated-print_list :
      (fuel : ℕ) (xs : List A) (rest : Tokens)
      → IsSome xs
      → All P xs
      → IsStop rest
      → next_is comma rest ≡ false
      → 2 * length (print_list print xs rest) + 1 < fuel
      → separated item fuel (print_list print xs rest) ≡ ok (xs, rest)
  unfolding separated print_list match
  separated-print_list zero xs rest s h stop c n = absurd (omega arith)
  separated-print_list (suc fuel) [] rest s h stop c n = elim s [ ]
  separated-print_list (suc fuel) (x ∷ []) rest s h stop c n =
      rw (back.reads fuel x rest h.0 stop (omega arith)) (rw c refl)
  separated-print_list (suc fuel) (x ∷ y ∷ xs) rest s h stop c n =
      let after = symbol comma ∷ print_list print (y ∷ xs) rest in
      rw (back.reads fuel x after h.0 (refl, refl, refl, refl) (omega arith)) (
        rw
          (separated-print_list fuel (y ∷ xs) rest tt h.1 stop c
            (omega (arith, back.takes x after h.0)))
          refl)

  pub length-print_list :
      (xs : List A) (rest : Tokens) → All P xs → length rest ≤ length (print_list print xs rest)
  unfolding print_list
  length-print_list [] rest h = omega arith
  length-print_list (x ∷ []) rest h = omega (arith, back.takes x rest h.0)
  length-print_list (x ∷ y ∷ xs) rest h = omega (
    arith,
    back.takes x (symbol comma ∷ print_list print (y ∷ xs) rest) h.0,
    length-print_list (y ∷ xs) rest h.1,
  )

pub paths_back : ReadsItems IsPath print_path parse_pattern_path
paths_back = record {
  reads = λ fuel path rest h stop n. parse_pattern_path-print fuel path rest h stop.1 n;
  takes = length-print_path;
}

parse_return_item-print :
    (fuel : ℕ) (e : Expression) (alias : Bytes) (rest : Tokens)
    → IsPrintable e
    → IsStop rest
    → 2 * length (print_expression e (print_alias alias rest)) < fuel
    → parse_return_item fuel (print_expression e (print_alias alias rest))
      ≡ ok (record { expr = e; alias = alias }, rest)
unfolding parse_return_item match optional_identifier
parse_return_item-print fuel e [] rest h stop n =
    rw (parse-print_expression fuel e rest h stop.0 n) (rw stop.2 refl)
parse_return_item-print fuel e (c ∷ s) rest h stop n =
    rw (parse-print_expression fuel e (print_alias (c ∷ s) rest) h refl n) refl

length-print_alias : (alias : Bytes) (rest : Tokens) → length rest ≤ length (print_alias alias rest)
length-print_alias [] rest = omega arith
length-print_alias (c ∷ s) rest = omega arith

pub items_back : ReadsItems (λ i. IsPrintable i.expr) print_return_item parse_return_item
unfolding print_return_item
items_back = record {
  reads = λ fuel i rest h stop n. parse_return_item-print fuel i.expr i.alias rest h stop n;
  takes = λ i rest h. omega (
    arith,
    length-print_expression i.expr (print_alias i.alias rest),
    length-print_alias i.alias rest,
  );
}

pub names_back :
    (msg : Bytes) → ReadsItems (λ v. Unit {0}) print_variable (λ fuel. parse_variable_name msg)
unfolding print_variable parse_variable_name
names_back msg = record { reads = λ fuel v rest h stop n. refl; takes = λ v rest h. omega arith }

pub assignments_back : ReadsItems (λ a. IsPrintable a.value) print_assignment parse_assignment
unfolding print_assignment parse_assignment parse_variable_name consume
assignments_back = record {
  reads = λ fuel a rest h stop n.
      rw (parse-print_expression fuel a.value rest h stop.0 (omega arith)) refl;
  takes = λ a rest h. omega (arith, length-print_expression a.value rest);
}
