-- ===== src/Parser/Monad.antt =====
-- `peek`, `advance`, `match` and `consume`, and the monad of the parser.
use tsurugi_graph.Base.{
  ℕ, Bool, true, false, List, [], ◌∷◌, ◌++◌, Bytes, bytes, ◌==◌, if◌then◌else◌,
}
use tsurugi_graph.Lexer.{
  Token, TokenType, keyword_create, keyword_match, keyword_return, keyword_where, identifier,
  string_literal, number_literal, lparen, rparen, lbracket, rbracket, lbrace, rbrace, colon, comma,
  arrow_right, arrow_left, dash, dot, equals, less_than, greater_than, keyword_as, keyword_delete,
  keyword_set, keyword_unwind, eof, unknown,
}

pub data Result {ℓ} (A : Type ℓ) : Type ℓ where
  ok : A → Result A
  failed : Bytes → Result A
  out_of_fuel : Result A

abbrev pub bind {ℓ κ} : {A : Type ℓ} {B : Type κ} → Result A → (A → Result B) → Result B
bind (ok a) f = f a
bind (failed msg) f = failed msg
bind out_of_fuel f = out_of_fuel

abbrev pub Tokens : Type 0
Tokens = List Token

abbrev pub Parser {ℓ} : Type ℓ → Type ℓ
Parser A = Tokens → Result (A × Tokens)

infixl 5 ◌>>=◌ ◌>>◌
abbrev pub ◌>>=◌ {ℓ κ} : {A : Type ℓ} {B : Type κ} → Parser A → (A → Parser B) → Parser B
◌>>=◌ p f ts = bind (p ts) λ (a, rest). f a rest

abbrev pub ◌>>◌ {ℓ} : {B : Type ℓ} → Parser (Unit {0}) → Parser B → Parser B
p >> q = p >>= λ _. q

abbrev pub pure {ℓ} : {A : Type ℓ} → A → Parser A
pure a ts = ok (a, ts)

-- The number of an enumerator.
abbrev pub tag : TokenType → ℕ
tag keyword_create = 0
tag keyword_match = 1
tag keyword_return = 2
tag keyword_where = 3
tag identifier = 4
tag string_literal = 5
tag number_literal = 6
tag lparen = 7
tag rparen = 8
tag lbracket = 9
tag rbracket = 10
tag lbrace = 11
tag rbrace = 12
tag colon = 13
tag comma = 14
tag arrow_right = 15
tag arrow_left = 16
tag dash = 17
tag dot = 18
tag equals = 19
tag less_than = 20
tag greater_than = 21
tag keyword_as = 22
tag keyword_delete = 23
tag keyword_set = 24
tag keyword_unwind = 25
tag eof = 26
tag unknown = 27

abbrev pub eof_token : Token
eof_token = record { type = eof; text = []; position = 0 }

abbrev pub peek : Tokens → Token
peek [] = eof_token
peek (t ∷ ts) = t

-- `peek().type == type`
abbrev pub next_is : TokenType → Tokens → Bool
next_is type ts = tag (peek ts).type == tag type

abbrev pub rest_of : Tokens → Tokens
rest_of [] = []
rest_of (t ∷ ts) = ts

unfoldable pub advance : Parser Token
advance ts = ok (peek ts, rest_of ts)

unfoldable pub match : TokenType → Parser Bool
match type ts = if next_is type ts then ok (true, rest_of ts) else ok (false, ts)

abbrev pub got : Bytes → Tokens → Bytes
got msg ts = msg ++ (bytes " Got: " ++ (peek ts).text)

unfoldable pub consume : TokenType → Bytes → Parser Token
consume type msg ts = if next_is type ts then ok (peek ts, rest_of ts) else failed (got msg ts)

-- `peek().type == type`, as a step that takes nothing.
unfoldable pub looking_at : TokenType → Parser Bool
looking_at type ts = ok (next_is type ts, ts)

-- `if (peek().type == identifier) x = advance().text;`
unfoldable pub optional_identifier : Parser Bytes
optional_identifier ts =
    if next_is identifier ts then ok ((peek ts).text, rest_of ts) else ok ([], ts)

-- `throw std::runtime_error(msg)`
unfoldable pub throw {ℓ} : {A : Type ℓ} → Bytes → Parser A
throw msg ts = failed msg
