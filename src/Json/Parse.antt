-- ===== src/Json/Parse.antt =====
-- `parse_json_properties`. Each round of the loop passes at least one quote, so that one unit of
-- fuel for each byte is enough.
use tsurugi_graph.Base.{
  ℕ, zero, suc, Bool, false, ◌&&◌, ◌||◌, not, Option, none, some, List, [], ◌∷◌, Bytes, length, ltb,
  ◌==◌, if◌then◌else◌, find_byte, span,
}

abbrev pub quote : ℕ
quote = 34

abbrev pub colon : ℕ
colon = 58

abbrev pub is_space : ℕ → Bool
is_space c = c == 32

-- `c != ',' && c != '}' && c != ' '`
abbrev pub is_bare : ℕ → Bool
is_bare c = not (c == 44) && not (c == 125) && not (c == 32)

-- `c == ',' || c == ' '`
abbrev pub is_separator : ℕ → Bool
is_separator c = c == 44 || c == 32

-- The value at the front: up to the closing quote, or up to a comma, a brace or a space. `none` is
-- the `break` at a quote that is not closed.
unfoldable pub read_value : Bytes → Option (Bytes × Bytes)
read_value [] = none
read_value (c ∷ s) = if c == quote then find_byte quote s else some (span is_bare (c ∷ s))

-- A key and what follows its colon and spaces.
unfoldable pub read_key : Bytes → Option (Bytes × Bytes)
read_key s = elim (find_byte quote s) [
  | none ↦ none
  | some (before, s1) ↦ elim (find_byte quote s1) [
    | none ↦ none
    | some (key, s2) ↦ elim (find_byte colon s2) [
      | none ↦ none
      | some (gap, s3) ↦ some (key, (span is_space s3).1)
    ]
  ]
]

-- One round: a key, its value, and what is left behind the separators.
unfoldable pub read_entry : Bytes → Option ((Bytes × Bytes) × Bytes)
unfolding read_key read_value
read_entry s = elim (read_key s) [
  | none ↦ none
  | some (key, s4) ↦ elim (read_value s4) [
    | none ↦ none
    | some (value, s5) ↦ some ((key, value), (span is_separator s5).1)
  ]
]

-- `if (pos < json.size() && json[pos] == '}') break;`
unfoldable pub at_brace : Bytes → Bool
at_brace [] = false
at_brace (c ∷ s) = c == 125

unfoldable pub parse_entries : ℕ → Bytes → List (Bytes × Bytes)
parse_entries zero s = []
parse_entries (suc fuel) s = elim (read_entry s) [
  | none ↦ []
  | some (entry, rest) ↦
      let more = parse_entries fuel rest in entry ∷ (if at_brace rest then [] else more)
]

unfoldable pub parse_json_properties : Bytes → List (Bytes × Bytes)
unfolding parse_entries
parse_json_properties [] = []
parse_json_properties (c ∷ s) =
    if ltb (length (c ∷ s)) 2 || not (c == 123) then [] else parse_entries (suc (length s)) s
