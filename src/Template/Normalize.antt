-- ===== src/Template/Normalize.antt =====
-- `normalize_query`. The state of the loop is the byte before, the rest of the query, the literals
-- so far and their number; each round takes a byte at least.
use tsurugi_graph.Base.{
  ℕ, zero, suc, ◌+◌, ◌/◌, ◌%◌, Bool, false, ◌&&◌, ◌||◌, List, [], ◌∷◌, ◌++◌, Bytes, length, ◌==◌,
  ltb, if◌then◌else◌, span,
}
use tsurugi_graph.Lexer.{is_digit, is_word, string_body}

-- `std::to_string` of a number, on one unit of fuel for each digit.
unfoldable pub decimal : ℕ → ℕ → Bytes
decimal zero n = []
decimal (suc fuel) n =
    let high = decimal fuel (n / 10) in
    if ltb n 10 then (n + 48) ∷ [] else high ++ (n % 10 + 48) ∷ []

unfoldable pub placeholder : ℕ → Bytes
unfolding decimal
placeholder n = 36 ∷ decimal 20 n

-- `i + 1 < query.size() && std::isdigit(query[i + 1])`
abbrev digit_follows : Bytes → Bool
digit_follows [] = false
digit_follows (c ∷ s) = is_digit c

abbrev number_start : ℕ → Bytes → Bool
number_start c s = is_digit c || (c == 45 && digit_follows s)

unfoldable pub last_of : ℕ → Bytes → ℕ
last_of c [] = c
last_of c (d ∷ s) = last_of d s

abbrev is_number : ℕ → Bool
is_number c = is_digit c || c == 46

-- `query.substr(start, i - start)`: a string whose last byte is an escape ends one behind the end.
unfoldable pub normalize_loop : ℕ → ℕ → Bytes → ℕ → Bytes × List Bytes
normalize_loop zero before s count = ([], [])
normalize_loop (suc fuel) before [] count = ([], [])
normalize_loop (suc fuel) before (c ∷ s) count =
    let (body, rest, closed) = string_body c s in
    let string_case : Bytes × List Bytes =
      let (text, lits) = normalize_loop fuel c rest (suc count) in
      (placeholder count ++ text, body ∷ lits) in
    let (digits, after) = span is_number s in
    let last : ℕ = last_of c digits in
    let number_case : Bytes × List Bytes =
      let (text, lits) = normalize_loop fuel last after (suc count) in
      (placeholder count ++ text, (c ∷ digits) ∷ lits) in
    let plain_case : Bytes × List Bytes =
      let (text, lits) = normalize_loop fuel c s count in (c ∷ text, lits) in
    if c == 39 || c == 34
    then string_case
    else if number_start c s
    then (if is_word before then plain_case else number_case)
    else plain_case

unfoldable pub normalize_query : Bytes → Bytes × List Bytes
unfolding normalize_loop placeholder
normalize_query query = normalize_loop (suc (length query)) 0 query 0
