-- ===== src/Lexer/Scan.antt =====
-- Characters, and the scanners of the tokens. `isalpha`, `isdigit`, `isspace` and `toupper` are
-- those of the C locale.
use tsurugi_graph.Base.{
  ℕ, zero, suc, ◌-◌, Bool, true, false, ◌&&◌, ◌||◌, Option, none, some, List, [], ◌∷◌, Bytes, bytes,
  length, take, ◌==◌, leb, if◌then◌else◌, eq_bytes, span, map,
}
use mathlib.Core.Option

pub data TokenType : Type 0 where
  keyword_create keyword_match keyword_return keyword_where : TokenType
  identifier string_literal number_literal : TokenType
  lparen rparen lbracket rbracket lbrace rbrace colon comma : TokenType
  arrow_right arrow_left dash dot equals less_than greater_than : TokenType
  keyword_as keyword_delete keyword_set keyword_unwind eof unknown : TokenType

pub record Token : Type 0 where
  pub type : TokenType
  pub text : Bytes
  pub position : ℕ

abbrev pub is_alpha : ℕ → Bool
is_alpha c = (leb 65 c && leb c 90) || (leb 97 c && leb c 122)

abbrev pub is_digit : ℕ → Bool
is_digit c = leb 48 c && leb c 57

abbrev pub is_space : ℕ → Bool
is_space c = c == 32 || (leb 9 c && leb c 13)

abbrev pub is_word : ℕ → Bool
is_word c = is_alpha c || is_digit c || c == 95

abbrev pub to_upper : ℕ → ℕ
to_upper c = if leb 97 c && leb c 122 then c - 32 else c

-- `ci_eq`, on the text of the token: the keyword is given in capitals.
unfoldable pub ci_eq : Bytes → Bytes → Bool
ci_eq s keyword = eq_bytes (map to_upper s) keyword

-- The `switch` on the length is left out: texts of different lengths are not equal.
unfoldable pub keyword_type : Bytes → TokenType
unfolding ci_eq
keyword_type text =
    if ci_eq text (bytes "AS")
    then keyword_as
    else if ci_eq text (bytes "SET")
    then keyword_set
    else if ci_eq text (bytes "MATCH")
    then keyword_match
    else if ci_eq text (bytes "WHERE")
    then keyword_where
    else if ci_eq text (bytes "CREATE")
    then keyword_create
    else if ci_eq text (bytes "RETURN")
    then keyword_return
    else if ci_eq text (bytes "DELETE") || ci_eq text (bytes "DETACH")
    then keyword_delete
    else if ci_eq text (bytes "UNWIND")
    then keyword_unwind
    else identifier

-- A scanner gives the type and the text of its token, and the rest of the input.
abbrev pub Scanned : Type 0
Scanned = TokenType × Bytes × Bytes

unfoldable pub scan_identifier_or_keyword : Bytes → Scanned
unfolding keyword_type
scan_identifier_or_keyword s = let (text, rest) = span is_word s in (keyword_type text, text, rest)

-- The loop of `scan_string`: what it passes over, the rest, and whether a closing quote was there.
unfoldable pub string_body : ℕ → Bytes → Bytes × Bytes × Bool
string_body quote [] = ([], [], false)
string_body quote (c ∷ []) = if c == quote then ([], [], true) else (c ∷ [], [], false)
string_body quote (c ∷ d ∷ s) =
    let escaped : Bytes × Bytes × Bool =
      let (body, rest, closed) = string_body quote s in (c ∷ d ∷ body, rest, closed) in
    let plain : Bytes × Bytes × Bool =
      let (body, rest, closed) = string_body quote (d ∷ s) in (c ∷ body, rest, closed) in
    if c == quote then ([], d ∷ s, true) else if c == 92 then escaped else plain

-- `substr(start + 1, pos_ - start - 2)`: without a closing quote that is one byte too few.
unfoldable pub scan_string : ℕ → Bytes → Scanned
scan_string quote s =
    let (body, rest, closed) = string_body quote s in
    (string_literal, (if closed then body else take (length body - 1) body), rest)

unfoldable pub scan_number : Bytes → Scanned
scan_number s =
    let (text, rest) = span (λ c. is_digit c || c == 46) s in (number_literal, text, rest)

-- The symbols of two bytes, by their second byte.
unfoldable pub scan_greater : Bytes → Scanned
scan_greater [] = (greater_than, bytes ">", [])
scan_greater (d ∷ s) =
    if d == 61 then (greater_than, bytes ">=", s) else (greater_than, bytes ">", d ∷ s)

unfoldable pub scan_less : Bytes → Scanned
scan_less [] = (less_than, bytes "<", [])
scan_less (d ∷ s) =
    if d == 45
    then (arrow_left, bytes "<-", s)
    else if d == 62
    then (greater_than, bytes "<>", s)
    else if d == 61
    then (less_than, bytes "<=", s)
    else (less_than, bytes "<", d ∷ s)

unfoldable pub scan_dash : Bytes → Scanned
scan_dash [] = (dash, bytes "-", [])
scan_dash (d ∷ s) = if d == 62 then (arrow_right, bytes "->", s) else (dash, bytes "-", d ∷ s)

-- `scan_symbol`, on the byte that it takes and what follows.
unfoldable pub scan_symbol : ℕ → Bytes → Scanned
scan_symbol c s =
    if c == b'('
    then (lparen, c ∷ [], s)
    else if c == b')'
    then (rparen, c ∷ [], s)
    else if c == b'{'
    then (lbrace, c ∷ [], s)
    else if c == b'}'
    then (rbrace, c ∷ [], s)
    else if c == b'['
    then (lbracket, c ∷ [], s)
    else if c == b']'
    then (rbracket, c ∷ [], s)
    else if c == b':'
    then (colon, c ∷ [], s)
    else if c == b','
    then (comma, c ∷ [], s)
    else if c == b'.'
    then (dot, c ∷ [], s)
    else if c == b'='
    then (equals, c ∷ [], s)
    else if c == b'>'
    then scan_greater s
    else if c == b'<'
    then scan_less s
    else if c == b'-'
    then scan_dash s
    else (unknown, c ∷ [], s)

-- The body of the loop of `tokenize`, at a byte that is no space.
unfoldable pub scan_token : ℕ → Bytes → Scanned
scan_token c s =
    if is_alpha c || c == 95
    then scan_identifier_or_keyword (c ∷ s)
    else if is_digit c
    then scan_number (c ∷ s)
    else if c == 39 || c == 34
    then scan_string c s
    else scan_symbol c s

-- The loop, with the length of the whole input: a position is that length less what is left.
-- `none` means that the fuel ran out.
unfoldable pub token_loop : ℕ → ℕ → Bytes → Option (List Token)
token_loop zero total s = none
token_loop (suc fuel) total s = elim (span is_space s).1 [
  | [] ↦ some (record { type = eof; text = []; position = total } ∷ [])
  | c ∷ rest ↦
      let (type, text, after) = scan_token c rest in
      let token : Token = record {
        type = type;
        text = text;
        position = total - length (c ∷ rest);
      } in
      Option.map (λ ts. token ∷ ts) (token_loop fuel total after)
]

unfoldable pub tokenize : Bytes → Option (List Token)
unfolding token_loop
tokenize input = token_loop (suc (length input)) (length input) input
