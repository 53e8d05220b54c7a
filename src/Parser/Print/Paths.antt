-- ===== src/Parser/Print/Paths.antt =====
-- `parse_pattern_path` on printed tokens.
use mathlib.Core.Path.{subst}
use tsurugi_graph.Base.{
  ℕ, zero, suc, ◌+◌, ◌*◌, ◌<◌, ◌≤◌, ◌≡◌, refl, sym, ap, inl, inr, ◌||◌, true, false, none, some,
  Option, [], ◌∷◌, arith, Bytes, bytes, length, eq_bytes,
}
use tsurugi_graph.Lexer.{dash, arrow_left, arrow_right}
use tsurugi_graph.Ast.{Entries, PatternRelationship, PatternElement, PatternPath}
use tsurugi_graph.Parser.Monad.{ok, Tokens, next_is, match, consume}
use tsurugi_graph.Parser.Patterns.{
  relationship_body, parse_relationship_detail, direction_of, parse_relationship_pattern,
  parse_hops, parse_pattern_path,
}
use tsurugi_graph.Parser.Print.{symbol}
use tsurugi_graph.Parser.Print.Patterns.{
  print_inside, print_node, print_relationship, print_link, print_path, last_arrow, IsProperties,
  IsDirection, IsPath, inside_lem, length-print_inside, length-print_node, parse_node_pattern-print,
}

relationship_body-print :
    (fuel : ℕ) (name label : Bytes) (props : Entries) (rest : Tokens)
    → IsProperties props
    → 2 * length (print_inside name label props false rest) < fuel
    → relationship_body fuel (print_inside name label props false rest)
      ≡ ok ((name, label, props), rest)
unfolding relationship_body consume
relationship_body-print fuel name label props rest h n =
    inside_lem fuel name label props false rest _ h n

length-print_relationship :
    (r : PatternRelationship) (rest : Tokens) → length rest < length (print_relationship r rest)
unfolding print_relationship
length-print_relationship r rest = omega (
  arith,
  length-print_inside r.variable r.type r.properties false (symbol (last_arrow r.direction) ∷ rest),
)

abbrev directed : PatternRelationship → Bytes → PatternRelationship
directed r d = record r { direction = d }

-- The relationship with a direction is read back.
abbrev ReadsBack : ℕ → PatternRelationship → Tokens → Type 0
ReadsBack fuel r rest =
    2 * length (print_relationship r rest) < fuel
    → parse_relationship_pattern fuel (print_relationship r rest) ≡ ok (r, rest)

module _ (fuel : ℕ) (r : PatternRelationship) (rest : Tokens) (h : IsProperties r.properties) where
  parse-leftwards : ReadsBack fuel (directed r (bytes "<-")) rest
  unfolding print_relationship parse_relationship_pattern parse_relationship_detail match
      direction_of eq_bytes
  parse-leftwards n =
      rw
        (relationship_body-print fuel r.variable r.type r.properties (symbol dash ∷ rest) h
          (omega arith))
        refl

  parse-rightwards : ReadsBack fuel (directed r (bytes "->")) rest
  unfolding print_relationship parse_relationship_pattern parse_relationship_detail match
      direction_of eq_bytes
  parse-rightwards n =
      rw
        (relationship_body-print fuel r.variable r.type r.properties (symbol arrow_right ∷ rest) h
          (omega arith))
        refl

  parse-undirected : ReadsBack fuel (directed r (bytes "-")) rest
  unfolding print_relationship parse_relationship_pattern parse_relationship_detail match
      direction_of eq_bytes
  parse-undirected n =
      rw
        (relationship_body-print fuel r.variable r.type r.properties (symbol dash ∷ rest) h
          (omega arith))
        refl

  parse_relationship_pattern-print : IsDirection r.direction → ReadsBack fuel r rest
  parse_relationship_pattern-print (inl e) =
      subst (λ d. ReadsBack fuel (directed r d) rest) (sym e) parse-leftwards
  parse_relationship_pattern-print (inr (inl e)) =
      subst (λ d. ReadsBack fuel (directed r d) rest) (sym e) parse-rightwards
  parse_relationship_pattern-print (inr (inr e)) =
      subst (λ d. ReadsBack fuel (directed r d) rest) (sym e) parse-undirected

-- A relationship begins with a dash or an arrow.
relationship_first :
    (r : PatternRelationship) (rest : Tokens)
    → (next_is dash (print_relationship r rest) || next_is arrow_left (print_relationship r rest))
      ≡ true
unfolding print_relationship
relationship_first r rest = ground arith

first_properties :
    (e : PatternElement) (es : PatternPath) → IsPath (e ∷ es) → IsProperties e.node.properties
first_properties e [] h = h.0
first_properties e (f ∷ es) h = h.0

parse_hops-print :
    (fuel : ℕ) (e : PatternElement) (es : PatternPath) (rest : Tokens)
    → IsPath (e ∷ es)
    → (next_is dash rest || next_is arrow_left rest) ≡ false
    → 2 * length (print_link e.relationship (print_path es rest)) + 1 < fuel
    → parse_hops fuel e.node (print_link e.relationship (print_path es rest)) ≡ ok (e ∷ es, rest)
unfolding parse_hops print_path
parse_hops-print zero e es rest h d n = absurd (omega arith)
parse_hops-print (suc fuel) e [] rest h d n = rw h.1 (rw d refl)
parse_hops-print (suc fuel) e (f ∷ es) rest (p, (r, linked, q, way), more) d n =
    let link = print_link f.relationship (print_path es rest) in
    let after = print_node f.node link in
    let room : 2 * length (print_relationship r after) + 1 < suc fuel =
      omega (arith, ap (λ l. length (print_link l after)) linked) in
    let shorter : length after < length (print_relationship r after) =
      length-print_relationship r after in
    rw linked (
      rw (relationship_first r after) (
        rw (parse_relationship_pattern-print fuel r after q way (omega arith)) (
          rw (parse_node_pattern-print fuel f.node link (first_properties f es more) (omega arith))
            (rw
              (parse_hops-print fuel f es rest more d
                (omega (arith, length-print_node f.node link)))
              refl))))

-- What follows a path goes on with no relationship.
pub parse_pattern_path-print :
    (fuel : ℕ) (path : PatternPath) (rest : Tokens)
    → IsPath path
    → (next_is dash rest || next_is arrow_left rest) ≡ false
    → 2 * length (print_path path rest) < fuel
    → parse_pattern_path fuel (print_path path rest) ≡ ok (path, rest)
unfolding parse_pattern_path print_path
parse_pattern_path-print fuel [] rest h d n = elim h [ ]
parse_pattern_path-print fuel (e ∷ es) rest h d n =
    let link = print_link e.relationship (print_path es rest) in
    rw (parse_node_pattern-print fuel e.node link (first_properties e es h) (omega arith))
      (parse_hops-print fuel e es rest h d (omega (arith, length-print_node e.node link)))

link_length :
    (o : Option PatternRelationship) (rest : Tokens) → length rest ≤ length (print_link o rest)
link_length none rest = omega arith
link_length (some r) rest = omega (arith, length-print_relationship r rest)

pub length-print_path :
    (path : PatternPath) (rest : Tokens) → IsPath path → length rest < length (print_path path rest)
unfolding print_path
length-print_path [] rest h = elim h [ ]
length-print_path (e ∷ []) rest h =
    let link = print_link e.relationship rest in
    omega (arith, link_length e.relationship rest, length-print_node e.node link)
length-print_path (e ∷ f ∷ es) rest h =
    let path = print_path (f ∷ es) rest in
    let link = print_link e.relationship path in
    omega (
      arith,
      link_length e.relationship path,
      length-print_node e.node link,
      length-print_path (f ∷ es) rest h.2,
    )
