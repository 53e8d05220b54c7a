-- ===== src/Lexer/Total.antt =====
-- The lexer ends on every input, with the end-of-input token last.
use tsurugi_graph.Base.{
  ℕ, zero, suc, ◌≤◌, ◌<◌, ◌≡◌, refl, ap, inl, inr, Bool, true, ◌||◌, Option, ◌-◌, some, List, [],
  ◌∷◌, ◌++◌, arith, Bytes, length, length-span, span, ◌==◌, Bool-cases,
}
use tsurugi_graph.Lexer.Scan.{
  Token, eof, is_alpha, is_digit, is_word, is_space, string_body, scan_string, scan_number,
  scan_identifier_or_keyword, scan_greater, scan_less, scan_dash, scan_symbol, scan_token,
  token_loop, tokenize,
}

length-span_head :
    (p : ℕ → Bool) (c : ℕ) (s : Bytes) → p c ≡ true → length (span p (c ∷ s)).1 ≤ length s
unfolding span
length-span_head p c s h = rw h (length-span p s)

length-string_body : (q : ℕ) (s : Bytes) → length (string_body q s).1 ≤ length s
unfolding string_body
length-string_body q [] = omega arith
length-string_body q (c ∷ []) = ground arith
length-string_body q (c ∷ d ∷ s) =
    ground (arith, length-string_body q s, length-string_body q (d ∷ s))

length-scan_greater : (s : Bytes) → length (scan_greater s).2 ≤ length s
unfolding scan_greater
length-scan_greater [] = omega arith
length-scan_greater (d ∷ s) = ground arith

length-scan_less : (s : Bytes) → length (scan_less s).2 ≤ length s
unfolding scan_less
length-scan_less [] = omega arith
length-scan_less (d ∷ s) = ground arith

length-scan_dash : (s : Bytes) → length (scan_dash s).2 ≤ length s
unfolding scan_dash
length-scan_dash [] = omega arith
length-scan_dash (d ∷ s) = ground arith

length-scan_symbol : (c : ℕ) (s : Bytes) → length (scan_symbol c s).2 ≤ length s
unfolding scan_symbol
length-scan_symbol c s =
    ground (arith, length-scan_greater s, length-scan_less s, length-scan_dash s)

-- Every token takes at least the byte that it begins with.
length-scan_token : (c : ℕ) (s : Bytes) → length (scan_token c s).2 ≤ length s
unfolding scan_token scan_identifier_or_keyword scan_number scan_string
length-scan_token c s = elim (Bool-cases (is_alpha c || c == 95)) [
  | inl w ↦ rw w (length-span_head is_word c s (ground arith))
  | inr w ↦ elim (Bool-cases (is_digit c)) [
    | inl d ↦ rw w (rw d (length-span_head (λ x. is_digit x || x == 46) c s (ground arith)))
    | inr d ↦ rw w (rw d (ground (arith, length-string_body c s, length-scan_symbol c s)))
  ]
]

-- Ends in an end-of-input token at position `total`.
abbrev pub EndsAt : ℕ → Option (List Token) → Type 0
EndsAt total o =
    (ts : List Token) × (o ≡ some (ts ++ record { type = eof; text = []; position = total } ∷ []))

token_loop_total :
    (fuel total : ℕ) (s : Bytes) → length s < fuel → EndsAt total (token_loop fuel total s)
unfolding token_loop
token_loop_total zero total s h = elim h [ ]
token_loop_total (suc fuel) total s h =
    go (λ s' h'. token_loop_total fuel total s' h') (span is_space s).1 refl
  where
    go :
        ((s' : Bytes) → length s' < fuel → EndsAt total (token_loop fuel total s'))
        → (rest : Bytes) → (span is_space s).1 ≡ rest
        → EndsAt total (token_loop (suc fuel) total s)
    go later [] e = ([], rw (e, token_loop) refl)
    go later (c ∷ rest) e =
        let shorter = length-span is_space s in
        let taken = length-scan_token c rest in
        let fits : length (scan_token c rest).2 < fuel =
          omega (arith, ap (λ (x : Bytes). length x) e) in
        let (ts, found) = later (scan_token c rest).2 fits in
        let token : Token = record {
          type = (scan_token c rest).0;
          text = (scan_token c rest).1;
          position = total - length (c ∷ rest);
        } in
        (token ∷ ts, rw (e, token_loop) (rw found refl))

-- The lexer ends on every input, and its last token is the end of the input, at the position where
-- the input ends.
pub tokenize_total : (input : Bytes) → EndsAt (length input) (tokenize input)
unfolding tokenize
tokenize_total input = token_loop_total (suc (length input)) (length input) input (omega arith)
