-- ===== src/Json/Value.antt =====
-- `get_json_value` and `update_json_property` of the executor.
use mathlib.Core.Option
use tsurugi_graph.Base.{
  ℕ, zero, suc, ◌+◌, Bool, true, false, ◌&&◌, not, Option, none, some, [], ◌∷◌, ◌++◌, Bytes, bytes,
  length, drop, ltb, ◌==◌, if◌then◌else◌, find_byte, span, has_prefix,
}
use tsurugi_graph.Json.Parse.{quote, colon, is_space, is_bare}
use tsurugi_graph.Json.Render.{quoted, value_text}

-- The value at the front, `""` where there is none.
unfoldable pub value_at : Bytes → Bytes
value_at [] = []
value_at (c ∷ s) =
    if c == quote
    then (elim (find_byte quote s) [ none ↦ [] | some (value, rest) ↦ value ])
    else (span is_bare (c ∷ s)).0

-- The part of `get_json_value` behind a key that matches; `""` stands for "not found".
unfoldable pub value_after_key : Bytes → Bytes
unfolding value_at
value_after_key s = elim (find_byte colon s) [
  | none ↦ []
  | some (gap, s1) ↦ value_at (span is_space s1).1
]

-- The loop over the quoted texts. A round passes two quotes at least, so that one unit of fuel for
-- each byte is enough.
unfoldable pub get_loop : ℕ → Bytes → Bytes → Bytes
unfolding value_after_key
get_loop zero key s = []
get_loop (suc fuel) key s = elim (find_byte quote s) [
  | none ↦ []
  | some (before, s1) ↦ elim (has_prefix (key ++ quote ∷ []) s1) [
    | true ↦ value_after_key (drop (length key + 1) s1)
    | false ↦ elim (find_byte quote s1) [ none ↦ [] | some (text, s2) ↦ get_loop fuel key s2 ]
  ]
]

unfoldable pub get_json_value : Bytes → Bytes → Bytes
unfolding get_loop
get_json_value json key = get_loop (suc (length json)) key json

-- `json.find(pattern)`: what stands before the first occurrence, and what follows it.
unfoldable pub find_text : Bytes → Bytes → Option (Bytes × Bytes)
find_text pattern [] = if has_prefix pattern [] then some ([], []) else none
find_text pattern (c ∷ s) =
    let later = Option.map (λ (p : Bytes × Bytes). (c ∷ p.0, p.1)) (find_text pattern s) in
    if has_prefix pattern (c ∷ s) then some ([], drop (length pattern) (c ∷ s)) else later

-- `json.rfind(c)`: what stands before the last `c`.
unfoldable pub rfind_byte : ℕ → Bytes → Option Bytes
rfind_byte c [] = none
rfind_byte c (d ∷ s) = elim (rfind_byte c s) [
  | some before ↦ some (d ∷ before)
  | none ↦ if d == c then some [] else none
]

-- `val_end` at the old value: what follows it. `none` is `npos`, at which `append` throws.
unfoldable pub skip_value : Bytes → Option Bytes
skip_value [] = some []
skip_value (c ∷ s) =
    if c == quote
    then Option.map (λ (p : Bytes × Bytes). p.1) (find_byte quote s)
    else some (span (λ d. not (d == 44) && not (d == 125)) (c ∷ s)).1

-- The branch for a key that is there: `none` stands for `std::out_of_range`.
unfoldable pub replace_value : Bytes → Bytes → Bytes → Bytes → Bytes → Option Bytes
unfolding skip_value
replace_value json before search after new_val = elim (find_byte colon after) [
  | none ↦ some json
  | some (gap, s1) ↦
      let (spaces, s2) = span is_space s1 in
      Option.map (λ rest. before ++ (search ++ (gap ++ colon ∷ (spaces ++ (new_val ++ rest)))))
        (skip_value s2)
]

abbrev pub last_is : ℕ → Bytes → Bool
last_is c [] = false
last_is c (d ∷ []) = d == c
last_is c (d ∷ e ∷ s) = last_is c (e ∷ s)

-- The branch for a new key: it goes before the last brace, and what follows the brace is dropped.
unfoldable pub insert_value : Bytes → Bytes → Bytes → Bytes
unfolding quoted
insert_value json key new_val = elim (rfind_byte 125 json) [
  | none ↦ json
  | some before ↦
      before
      ++ ((if ltb 1 (length before) && not (last_is 123 before) then bytes ", " else [])
          ++ (quoted key ++ (bytes ": " ++ (new_val ++ 125 ∷ []))))
]

unfoldable pub update_json_property : Bytes → Bytes → Bytes → Bool → Option Bytes
unfolding replace_value insert_value quoted value_text
update_json_property json key value is_string = elim (find_text (quoted key) json) [
  | none ↦ some (insert_value json key (value_text is_string value))
  | some (before, after) ↦ replace_value json before (quoted key) after (value_text is_string value)
]
