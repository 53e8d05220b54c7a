-- ===== src/Json/RoundTrip.antt =====
-- What the executor renders the storage layer reads back.
use tsurugi_graph.Base.{
  ℕ, zero, suc, ◌<◌, ◌≡◌, refl, ap, ◌∙◌, Bool, true, false, some, List, [], ◌∷◌, ◌++◌, append_assoc,
  append-nil, arith, Bytes, length, length-append, ◌==◌, find_byte, span, All, Holds, Without,
  find_byte-append, span-append,
}
use tsurugi_graph.Json.Parse.{
  quote, is_bare, is_separator, is_space, read_value, read_key, read_entry, at_brace, parse_entries,
  parse_json_properties,
}
use tsurugi_graph.Json.Render.{quoted, render_entry, render_entries, render, value_text}

-- A key, whether its value is a string, and the value.
abbrev pub Entry : Type 0
Entry = Bytes × Bool × Bytes

abbrev pub texts : List Entry → List (Bytes × Bytes)
texts [] = []
texts (e ∷ es) = (e.0, value_text e.1 e.2) ∷ texts es

abbrev pub values : List Entry → List (Bytes × Bytes)
values [] = []
values (e ∷ es) = (e.0, e.2) ∷ values es

-- A number is not empty, does not begin with a quote, and holds no comma, brace or space.
abbrev pub IsBare : Bytes → Type 0
IsBare [] = ⊥
IsBare (c ∷ s) = ((c == quote) ≡ false) × Holds is_bare (c ∷ s)

abbrev pub IsReadableValue : Bool → Bytes → Type 0
IsReadableValue true v = Without quote v
IsReadableValue false v = IsBare v

abbrev pub IsReadable : Entry → Type 0
IsReadable e = Without quote e.0 × IsReadableValue e.1 e.2

read_value-text :
    (is_string : Bool) (v : Bytes) (c : ℕ) (s : Bytes)
    → IsReadableValue is_string v
    → is_bare c ≡ false
    → read_value (value_text is_string v ++ c ∷ s) ≡ some (v, c ∷ s)
unfolding read_value value_text quoted
read_value-text true v c s h e = rw append_assoc (find_byte-append quote v (c ∷ s) h)
read_value-text false [] c s h e = elim h [ ]
read_value-text false (d ∷ v) c s h e = rw h.0 (ap some (span-append is_bare (d ∷ v) c s h.1 e))

pub value_text-not_space :
    (is_string : Bool) (v s : Bytes)
    → IsReadableValue is_string v
    → (span is_space (value_text is_string v ++ s)).1 ≡ value_text is_string v ++ s
unfolding value_text quoted span
value_text-not_space true v s h = refl
value_text-not_space false [] s h = elim h [ ]
value_text-not_space false (d ∷ v) s h = ground arith

render_entry-append :
    (k t s : Bytes) → render_entry (k, t) ++ s ≡ quote ∷ (k ++ quote ∷ 58 ∷ 32 ∷ (t ++ s))
unfolding render_entry quoted
render_entry-append k t s = simp append_assoc

read_key-render :
    (e : Entry) (s : Bytes)
    → IsReadable e
    → read_key (render_entry (e.0, value_text e.1 e.2) ++ s) ≡ some (e.0, value_text e.1 e.2 ++ s)
unfolding read_key find_byte span
read_key-render e s h =
    let t = value_text e.1 e.2 in
    rw (render_entry-append e.0 t s) (
      rw (find_byte-append quote e.0 (58 ∷ 32 ∷ (t ++ s)) h.0, read_key)
        (rw (value_text-not_space e.1 e.2 s h.1) refl))

-- One entry is read off the front, with the separators behind it.
read_entry-render :
    (e : Entry) (c : ℕ) (s : Bytes)
    → IsReadable e
    → is_bare c ≡ false
    → read_entry (render_entry (e.0, value_text e.1 e.2) ++ c ∷ s)
      ≡ some ((e.0, e.2), (span is_separator (c ∷ s)).1)
unfolding read_entry
read_entry-render e c s h b =
    rw (read_key-render e (c ∷ s) h, read_entry) (rw (read_value-text e.1 e.2 c s h.1 b) refl)

unfoldable pub body : List Entry → Bytes
body es = render_entries true (texts es) ++ 125 ∷ []

abbrev entry_text : Entry → Bytes
entry_text e = render_entry (e.0, value_text e.1 e.2)

pub body_one : (e : Entry) → body (e ∷ []) ≡ entry_text e ++ 125 ∷ []
unfolding body render_entries
body_one e = rw append-nil refl

pub body_more :
    (e f : Entry) (es : List Entry) → body (e ∷ f ∷ es) ≡ entry_text e ++ 44 ∷ 32 ∷ body (f ∷ es)
unfolding body render_entries
body_more e f es = simp append_assoc

-- Behind an entry the parser stands at the next one, or at the closing brace.
body-cons :
    (e : Entry) (es : List Entry)
    → IsReadable e
    → read_entry (body (e ∷ es)) ≡ some ((e.0, e.2), body es)
body-cons e [] h =
    rw body_one (read_entry-render e 125 [] h refl ∙ unfold body render_entries span in refl)
body-cons e (f ∷ es) h = rw body_more (
    read_entry-render e 44 (32 ∷ body (f ∷ es)) h refl
    ∙ unfold body render_entries render_entry quoted span in refl)

at_brace-cons : (e : Entry) (es : List Entry) → at_brace (body (e ∷ es)) ≡ false
unfolding body render_entries render_entry quoted at_brace
at_brace-cons e es = refl

parse_entries-body :
    (fuel : ℕ) (es : List Entry)
    → All IsReadable es
    → length es < fuel
    → parse_entries fuel (body es) ≡ values es
unfolding parse_entries
parse_entries-body zero es hs h = elim h [ ]
parse_entries-body (suc fuel) [] hs h =
    unfold body render_entries read_entry read_key find_byte in refl
parse_entries-body (suc fuel) (e ∷ []) hs h =
    rw (body-cons e [] hs.0, parse_entries) (unfold body render_entries at_brace in refl)
parse_entries-body (suc fuel) (e ∷ f ∷ es) hs h =
    rw (body-cons e (f ∷ es) hs.0, parse_entries)
      (rw (at_brace-cons f es)
        (ap (◌∷◌ (e.0, e.2)) (parse_entries-body fuel (f ∷ es) hs.1 (omega arith))))

length-entry_text : (e : Entry) → 0 < length (entry_text e)
unfolding render_entry quoted
length-entry_text e = omega arith

length-body : (es : List Entry) → length es < length (body es)
length-body [] = unfold body render_entries in omega arith
length-body (e ∷ []) =
    rw body_one (omega (arith, length-append (entry_text e) (125 ∷ []), length-entry_text e))
length-body (e ∷ f ∷ es) = rw body_more (
    omega (
      arith,
      length-append (entry_text e) (44 ∷ 32 ∷ body (f ∷ es)),
      length-entry_text e,
      length-body (f ∷ es),
    ))

-- Whatever properties the executor renders, with no quote in a key or a string and no separator
-- in a number, the storage layer reads back: the same keys and values, in the same order.
pub parse_json_properties-render :
    (es : List Entry) → All IsReadable es → parse_json_properties (render (texts es)) ≡ values es
unfolding parse_json_properties render body
parse_json_properties-render es h = ground (
  arith,
  length-body es,
  parse_entries-body (suc (length (body es))) es h (omega (arith, length-body es)),
)
