-- ===== src/Json/Lookup.antt =====
-- What `get_json_value` finds in a text that the executor rendered.
use tsurugi_graph.Base.{
  ℕ, zero, suc, ◌+◌, ◌*◌, ◌<◌, ◌≡◌, refl, ap, ◌∙◌, inl, inr, Bool, true, false, ◌&&◌, List, [], ◌∷◌,
  ◌++◌, append_assoc, drop-append_add, length-append, Bool-cases, arith, Bytes, length, ◌==◌,
  if◌then◌else◌, eq_bytes, eq_bytes_iff, find_byte, find_byte-append, span, span-append, All,
  All-append, Without,
}
use tsurugi_graph.Json.Parse.{quote, colon, is_bare}
use tsurugi_graph.Json.Render.{render, render_entries, quoted, value_text}
use tsurugi_graph.Json.Value.{value_at, value_after_key, get_loop, get_json_value}
use tsurugi_graph.Json.RoundTrip.{Entry, texts, IsReadableValue, body, value_text-not_space}
use tsurugi_graph.Json.Segments.{
  IsPlain, find_byte-Without, has_prefix-piece, separator, separator-Without, after, body-cons_lem,
  render-body,
}

abbrev first_value : List Entry → Bytes
first_value [] = []
first_value (e ∷ es) = e.2

-- The value of the first entry with the key, the empty text without one; but behind a string value
-- that is equal to the key, the value of the next entry.
abbrev pub answer : Bytes → List Entry → Bytes
answer key [] = []
answer key (e ∷ es) =
    if eq_bytes key e.0
    then e.2
    else if e.1 && eq_bytes key e.2
    then first_value es
    else answer key es

-- One round of the loop: the piece between two quotes is the key, or the loop goes on behind it.
get_loop-piece :
    (fuel : ℕ) (key before t rest : Bytes)
    → Without quote key
    → Without quote before
    → Without quote t
    → get_loop (suc fuel) key (before ++ quote ∷ (t ++ quote ∷ rest))
      ≡ (if eq_bytes key t then value_after_key rest else get_loop fuel key rest)
unfolding get_loop
get_loop-piece fuel key before t rest h k p =
    rw (find_byte-append quote before (t ++ quote ∷ rest) k, get_loop)
      (rw (has_prefix-piece key t rest h p) (elim (Bool-cases (eq_bytes key t)) [
        | inl e ↦ rw e (
            let same : key ≡ t = (eq_bytes_iff key t).0 e in
            rw same (ap value_after_key (drop-append_add 1 (length t) t (quote ∷ rest) refl)))
        | inr e ↦ rw e (rw (find_byte-append quote t rest p) refl)
      ]))

value_at-text :
    (is_string : Bool) (v : Bytes) (c : ℕ) (s : Bytes)
    → IsReadableValue is_string v
    → is_bare c ≡ false
    → value_at (value_text is_string v ++ c ∷ s) ≡ v
unfolding value_at value_text quoted
value_at-text true v c s h e = rw append_assoc (rw (find_byte-append quote v (c ∷ s) h) refl)
value_at-text false [] c s h e = elim h [ ]
value_at-text false (d ∷ v) c s h e = rw h.0 (rw (span-append is_bare (d ∷ v) c s h.1 e) refl)

-- Behind a colon stands the value of an entry.
value_after_key-gap :
    (gap : Bytes) (is_string : Bool) (v : Bytes) (es : List Entry)
    → Without colon gap
    → IsReadableValue is_string v
    → value_after_key (gap ++ colon ∷ 32 ∷ (value_text is_string v ++ after es)) ≡ v
unfolding value_after_key span
value_after_key-gap gap is_string v [] h k =
    rw (find_byte-append colon gap (32 ∷ (value_text is_string v ++ after [])) h, value_after_key)
      (rw (value_text-not_space is_string v (after []) k)
        (unfold body render_entries in value_at-text is_string v 125 [] k refl))
value_after_key-gap gap is_string v (f ∷ es) h k =
    rw
      (
        find_byte-append colon gap (32 ∷ (value_text is_string v ++ after (f ∷ es))) h,
        value_after_key,
      )
      (rw (value_text-not_space is_string v (after (f ∷ es)) k)
        (value_at-text is_string v 44 (32 ∷ body (f ∷ es)) k refl))

value_after_key-after :
    (es : List Entry) → All IsPlain es → value_after_key (after es) ≡ first_value es
unfolding value_after_key
value_after_key-after [] hs = unfold body render_entries find_byte in refl
value_after_key-after (f ∷ es) ((h, v, c), hs) =
    let gap : Bytes = 44 ∷ 32 ∷ quote ∷ (f.0 ++ quote ∷ []) in
    ap value_after_key (ap (λ s. 44 ∷ 32 ∷ s) (body-cons_lem f es) ∙ simp append_assoc)
    ∙ value_after_key-gap gap f.1 f.2 es
        (refl, (refl, (refl, All-append (λ d. (d == colon) ≡ false) f.0 (quote ∷ []) c (refl, tt))))
        h.1

get_loop-body :
    (fuel : ℕ) (key before : Bytes) (es : List Entry)
    → Without quote key
    → Without quote before
    → All IsPlain es
    → 2 * length es < fuel
    → get_loop fuel key (before ++ body es) ≡ answer key es
get_loop-body zero key before es h k hs n = absurd (omega arith)
get_loop-body (suc fuel) key before [] h k hs n =
    unfold get_loop body render_entries in
    rw
      (
        find_byte-Without quote (before ++ 125 ∷ [])
            (All-append (λ d. (d == quote) ≡ false) before (125 ∷ []) k (refl, tt)),
        get_loop,
      )
      refl
get_loop-body (suc zero) key before (e ∷ es) h k hs n = absurd (omega arith)
get_loop-body (suc (suc fuel)) key before ((name, true, v) ∷ es) h k ((r, q, c), hs) n =
    rw (body-cons_lem (name, true, v) es) (
      get_loop-piece (suc fuel) key before name (58 ∷ 32 ∷ (value_text true v ++ after es)) h k r.0
      ∙ elim (Bool-cases (eq_bytes key name)) [
        | inl e ↦ rw e (value_after_key-gap [] true v es tt r.1)
        | inr e ↦ rw e (
            ap (get_loop (suc fuel) key) {y = (58 ∷ 32 ∷ []) ++ quote ∷ (v ++ quote ∷ after es)}
              (unfold value_text quoted in simp append_assoc)
            ∙ get_loop-piece fuel key (58 ∷ 32 ∷ []) v (after es) h (refl, (refl, tt)) q
            ∙ elim (Bool-cases (eq_bytes key v)) [
              | inl e2 ↦ rw e2 (value_after_key-after es hs)
              | inr e2 ↦ rw e2 (
                  get_loop-body fuel key (separator es) es h (separator-Without es) hs
                    (omega arith))
            ])
      ])
get_loop-body (suc (suc fuel)) key before ((name, false, v) ∷ es) h k ((r, q, c), hs) n =
    rw (body-cons_lem (name, false, v) es) (
      get_loop-piece (suc fuel) key before name (58 ∷ 32 ∷ (value_text false v ++ after es)) h k r.0
      ∙ elim (Bool-cases (eq_bytes key name)) [
        | inl e ↦ rw e (value_after_key-gap [] false v es tt r.1)
        | inr e ↦ rw e (
            ap (get_loop (suc fuel) key) {y = 58 ∷ 32 ∷ ((v ++ separator es) ++ body es)}
              (unfold value_text quoted in simp append_assoc)
            ∙ get_loop-body (suc fuel) key (58 ∷ 32 ∷ (v ++ separator es)) es h
                (
                  refl,
                  (
                    refl,
                    All-append (λ d. (d == quote) ≡ false) v (separator es) q
                        (separator-Without es),
                  ),
                )
                hs (omega arith))
      ])

length-body_two : (es : List Entry) → All IsPlain es → 2 * length es < length (body es) + 1
length-body_two [] hs = omega arith
length-body_two (e ∷ es) hs = rw (body-cons_lem e es) (
    omega (
      arith,
      length-append e.0 (quote ∷ 58 ∷ 32 ∷ (value_text e.1 e.2 ++ after es)),
      length-append (value_text e.1 e.2) (after es),
      length-append (separator es) (body es),
      length-body_two es hs.1,
    ))

-- In a text that the executor rendered, with no quote in a key or a value and no colon in a key,
-- `get_json_value` finds the value of the first entry with the key, and the empty text without one;
-- but where a string value equal to the key stands before, it finds the value of the entry behind
-- that one.
pub get_json_value-render :
    (key : Bytes) (es : List Entry)
    → Without quote key
    → All IsPlain es
    → get_json_value (render (texts es)) key ≡ answer key es
unfolding get_json_value
get_json_value-render key es h hs = rw (render-body es) (
    get_loop-body (suc (length (123 ∷ body es))) key (123 ∷ []) es h (refl, tt) hs
      (omega (arith, length-body_two es hs)))
