-- ===== src/Json/Updates.antt =====
-- What `update_json_property` writes into a text that the executor rendered.
use tsurugi_graph.Base.{
  ℕ, ◌≡◌, refl, sym, ap, ◌∙◌, ◌⊎◌, inl, inr, Bool, true, false, ◌&&◌, not, none, some, List, [],
  ◌∷◌, ◌++◌, append-nil, append_assoc, Bool-cases, arith, Bytes, length, ltb, ◌==◌, if◌then◌else◌,
  eq_bytes, find_byte, find_byte-append, span, span-append, All, Holds,
}
use tsurugi_graph.Json.Parse.{quote, is_space, is_bare}
use tsurugi_graph.Json.Render.{render, render_entries, render_entry, quoted, value_text}
use tsurugi_graph.Json.Value.{
  find_text, rfind_byte, skip_value, replace_value, last_is, insert_value, update_json_property,
}
use tsurugi_graph.Json.RoundTrip.{Entry, texts, IsReadableValue, body, body_more}
use tsurugi_graph.Json.Segments.{separator, after, body-cons_lem, render-body}
use tsurugi_graph.Json.Search.{later, located, IsApart, IsKey, find_text-skip, find_text-body}

-- The first entry with the key gets the value; without one, the entry is added at the end.
abbrev pub changed : Bytes → Bool → Bytes → List Entry → List Entry
changed key is_string v [] = (key, is_string, v) ∷ []
changed key is_string v (e ∷ es) =
    if eq_bytes key e.0 then (key, is_string, v) ∷ es else e ∷ changed key is_string v es

-- No text of a value ends with an opening brace.
abbrev pub EndsWell : Entry → Type 0
EndsWell e = last_is 123 (value_text e.1 e.2) ≡ false

module _ (key : Bytes) (is_string : Bool) (v : Bytes) where
  separator-changed :
      (es : List Entry) (p : Bytes × Bytes)
      → located key es ≡ some p
      → separator (changed key is_string v es) ≡ separator es
  separator-changed [] p h = cc
  separator-changed (f ∷ es) p h = elim (Bool-cases (eq_bytes key f.0)) [
    | inl e ↦ rw e refl
    | inr e ↦ rw e refl
  ]

  -- Either no entry has the key, or the texts before and behind the value stay.
  abbrev Placed : List Entry → Type 0
  Placed es =
      ((located key es ≡ none) × (changed key is_string v es ≡ es ++ (key, is_string, v) ∷ []))
      ⊎ ((before : Bytes) × (b : Bool) × (old : Bytes) × (rest : List Entry) × (located key es
            ≡ some (before, 58 ∷ 32 ∷ (value_text b old ++ after rest)))
          × IsReadableValue b old
          × (body (changed key is_string v es)
              ≡ before ++ (quoted key ++ 58 ∷ 32 ∷ (value_text is_string v ++ after rest))))

  placed : (es : List Entry) → All (IsApart key) es → Placed es
  placed [] hs = inl (refl, refl)
  placed (e ∷ es) hs = elim (Bool-cases (eq_bytes key e.0)) [
    | inl q ↦ inr (
      [],
      e.1,
      e.2,
      es,
      rw q refl,
      hs.0.0.0.1,
      rw q (body-cons_lem (key, is_string, v) es ∙ unfold quoted in simp append_assoc),
    )
    | inr q ↦ elim (placed es hs.1) [
      | inl (l, c) ↦ inl (rw (q, located) (rw l refl), rw q (ap (◌∷◌ e) c))
      | inr (before, b, old, rest, l, r, line) ↦ inr (
        quote ∷ (e.0 ++ quote ∷ 58 ∷ 32 ∷ (value_text e.1 e.2 ++ separator es)) ++ before,
        b,
        old,
        rest,
        rw q (rw l refl),
        r,
        rw q (
            body-cons_lem e (changed key is_string v es)
            ∙ rw (separator-changed es _ l) (rw line (simp append_assoc))),
      )
    ]
  ]

-- `c != ',' && c != '}'`
abbrev in_value : ℕ → Bool
in_value c = not (c == 44) && not (c == 125)

bare_in_value : (s : Bytes) → Holds is_bare s → Holds in_value s
bare_in_value [] h = tt
bare_in_value (c ∷ s) h = (ground arith, bare_in_value s h.1)

skip_value-text :
    (b : Bool) (old : Bytes) (rest : List Entry)
    → IsReadableValue b old
    → skip_value (value_text b old ++ after rest) ≡ some (after rest)
unfolding skip_value value_text quoted
skip_value-text true old rest h =
    rw append_assoc (rw (find_byte-append quote old (after rest) h) refl)
skip_value-text false [] rest h = elim h [ ]
skip_value-text false (d ∷ old) [] h =
    unfold body render_entries in
    rw h.0 (
      ap some
        (ap (λ p. p.1) (span-append in_value (d ∷ old) 125 [] (bare_in_value (d ∷ old) h.1) refl)))
skip_value-text false (d ∷ old) (f ∷ rest) h = rw h.0 (
    ap some (
      ap (λ p. p.1)
        (span-append in_value (d ∷ old) 44 (32 ∷ body (f ∷ rest)) (bare_in_value (d ∷ old) h.1)
          refl)))

span-text :
    (b : Bool) (old s : Bytes)
    → IsReadableValue b old
    → span is_space (value_text b old ++ s) ≡ ([], value_text b old ++ s)
unfolding span value_text quoted
span-text true old s h = refl
span-text false [] s h = elim h [ ]
span-text false (d ∷ old) s h = ground arith

-- The new value stands in the place of the old one.
replace_value-text :
    (json before search : Bytes) (b : Bool) (old new_val : Bytes) (rest : List Entry)
    → IsReadableValue b old
    → replace_value json before search (58 ∷ 32 ∷ (value_text b old ++ after rest)) new_val
      ≡ some (before ++ (search ++ 58 ∷ 32 ∷ (new_val ++ after rest)))
unfolding replace_value find_byte span
replace_value-text json before search b old new_val rest r =
    rw (span-text b old (after rest) r) (rw (skip_value-text b old rest r) refl)

rfind_byte-snoc : (c : ℕ) (s : Bytes) → rfind_byte c (s ++ c ∷ []) ≡ some s
unfolding rfind_byte
rfind_byte-snoc c [] = ground arith
rfind_byte-snoc c (d ∷ s) = rw (rfind_byte-snoc c s) refl

-- The last byte of a list that goes on.
last_is-append : (c d : ℕ) (xs ys : Bytes) → last_is c (xs ++ d ∷ ys) ≡ last_is c (d ∷ ys)
last_is-append c d [] ys = refl
last_is-append c d (x ∷ []) ys = refl
last_is-append c d (x ∷ y ∷ xs) ys = last_is-append c d (y ∷ xs) ys

-- The entries without the closing brace.
abbrev inner : List Entry → Bytes
inner es = render_entries true (texts es)

last_is-space : (s : Bytes) → last_is 123 s ≡ false → last_is 123 (32 ∷ s) ≡ false
last_is-space [] h = refl
last_is-space (c ∷ s) h = h

last_is-entry :
    (e : Entry) → EndsWell e → last_is 123 (render_entry (e.0, value_text e.1 e.2)) ≡ false
unfolding render_entry quoted
last_is-entry e h =
    ap (last_is 123) {x = render_entry (e.0, value_text e.1 e.2)}
      {y = (quoted e.0 ++ 58 ∷ []) ++ 32 ∷ value_text e.1 e.2} (simp append_assoc)
    ∙ last_is-append 123 32 (quoted e.0 ++ 58 ∷ []) (value_text e.1 e.2)
    ∙ last_is-space (value_text e.1 e.2) h

last_is-inner :
    (e : Entry) (es : List Entry) → All EndsWell (e ∷ es) → last_is 123 (inner (e ∷ es)) ≡ false
unfolding render_entries
last_is-inner e [] h = rw append-nil (last_is-entry e h.0)
last_is-inner e (f ∷ es) h =
    let text : Bytes = render_entry (e.0, value_text e.1 e.2) in
    ap (last_is 123) {x = inner (e ∷ f ∷ es)} {y = (text ++ 44 ∷ []) ++ 32 ∷ inner (f ∷ es)}
      (simp append_assoc)
    ∙ last_is-append 123 32 (text ++ 44 ∷ []) (inner (f ∷ es))
    ∙ last_is-space (inner (f ∷ es)) (last_is-inner f es h.1)

joins :
    (e : Entry) (es : List Entry)
    → All EndsWell (e ∷ es)
    → (ltb 1 (length (123 ∷ inner (e ∷ es))) && not (last_is 123 (123 ∷ inner (e ∷ es)))) ≡ true
unfolding render_entries render_entry quoted
joins e es h = rw (last_is-inner e es h) (ground arith)

body-snoc :
    (e : Entry) (es : List Entry) (new : Entry)
    → body ((e ∷ es) ++ new ∷ []) ≡ inner (e ∷ es) ++ 44 ∷ 32 ∷ body (new ∷ [])
unfolding body render_entries
body-snoc e [] new = simp append_assoc
body-snoc e (f ∷ es) new =
    let text : Bytes = render_entry (e.0, value_text e.1 e.2) in
    body_more e f (es ++ new ∷ [])
    ∙ ap (λ s. text ++ 44 ∷ 32 ∷ s) (body-snoc f es new)
    ∙ simp append_assoc

insert_value-body :
    (key : Bytes) (is_string : Bool) (v : Bytes) (es : List Entry)
    → All EndsWell es
    → insert_value (123 ∷ body es) key (value_text is_string v)
      ≡ 123 ∷ body (es ++ (key, is_string, v) ∷ [])
unfolding insert_value
insert_value-body key is_string v [] h =
    unfold body render_entries rfind_byte render_entry quoted in simp append_assoc
insert_value-body key is_string v (e ∷ es) h =
    let new : Entry = (key, is_string, v) in
    let end : rfind_byte 125 (123 ∷ body (e ∷ es)) ≡ some (123 ∷ inner (e ∷ es)) =
      unfold body in rfind_byte-snoc 125 (123 ∷ inner (e ∷ es)) in
    rw (end, insert_value)
      (rw (joins e es h) (
        ap (λ s. 123 ∷ (inner (e ∷ es) ++ 44 ∷ 32 ∷ s)) {y = body (new ∷ [])}
          (unfold body render_entries render_entry quoted in simp append_assoc)
        ∙ ap (λ s. 123 ∷ s) (sym (body-snoc e es new))))

-- On a text that the executor rendered, `update_json_property` gives what it renders for the
-- changed entries.
pub update_json_property-render :
    (key : Bytes) (is_string : Bool) (v : Bytes) (es : List Entry)
    → IsKey key
    → All (IsApart key) es
    → All EndsWell es
    → update_json_property (render (texts es)) key v is_string
      ≡ some (render (texts (changed key is_string v es)))
unfolding update_json_property
update_json_property-render key is_string v es h hs ends =
    let found : find_text (quoted key) (123 ∷ body es) ≡ later (123 ∷ []) (located key es) =
      find_text-skip key (123 ∷ []) (body es) (refl, tt)
      ∙ ap (later (123 ∷ [])) (find_text-body key es h hs) in
    rw (render-body es) (
      rw (render-body (changed key is_string v es)) (elim (placed key is_string v es hs) [
        | inl (l, c) ↦
            rw (found ∙ ap (later (123 ∷ [])) l, update_json_property)
              (ap some
                (insert_value-body key is_string v es ends ∙ ap (λ es. 123 ∷ body es) (sym c)))
        | inr (before, b, old, rest, l, r, line) ↦
            rw (found ∙ ap (later (123 ∷ [])) l, update_json_property)
              (replace_value-text (123 ∷ body es) (123 ∷ before) (quoted key) b old
                  (value_text is_string v) rest r
                ∙ ap (λ s. some (123 ∷ s)) (sym line))
      ]))
