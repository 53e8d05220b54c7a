-- ===== src/Json/Search.antt =====
-- Where `json.find` meets a quoted key in a text that the executor rendered.
use mathlib.Core.Option
use tsurugi_graph.Base.{
  ℕ, ◌≡◌, refl, sym, ap, ◌∙◌, inl, inr, true, false, ◌&&◌, Option, none, some, List, [], ◌∷◌, ◌++◌,
  append-nil, append_assoc, length-append, drop-append_add, Bool-cases, arith, Bytes, length, drop,
  ◌==◌, if◌then◌else◌, eq_bytes, eq_bytes_iff, has_prefix, All, All-append, Without,
}
use tsurugi_graph.Json.Parse.{quote, colon}
use tsurugi_graph.Json.Render.{render_entries, quoted, value_text}
use tsurugi_graph.Json.Value.{find_text}
use tsurugi_graph.Json.RoundTrip.{Entry, body}
use tsurugi_graph.Json.Segments.{IsPlain, has_prefix-piece, separator, after, body-cons_lem}

-- An occurrence that has more in front of it.
abbrev pub later : Bytes → Option (Bytes × Bytes) → Option (Bytes × Bytes)
later a none = none
later a (some (before, rest)) = some (a ++ before, rest)

later-later : (a b : Bytes) (o : Option (Bytes × Bytes)) → later a (later b o) ≡ later (a ++ b) o
later-later a b none = refl
later-later a b (some (before, rest)) = rw append_assoc refl

later-nil : (o : Option (Bytes × Bytes)) → later [] o ≡ o
later-nil none = refl
later-nil (some p) = refl

find_text-later :
    (pattern : Bytes) (c : ℕ) (s : Bytes)
    → has_prefix pattern (c ∷ s) ≡ false
    → find_text pattern (c ∷ s) ≡ later (c ∷ []) (find_text pattern s)
unfolding find_text
find_text-later pattern c s h = rw h (go (find_text pattern s))
  where
    go :
        (o : Option (Bytes × Bytes))
        → Option.map (λ (p : Bytes × Bytes). (c ∷ p.0, p.1)) o ≡ later (c ∷ []) o
    go none = refl
    go (some p) = refl

find_text-found :
    (pattern : Bytes) (c : ℕ) (s : Bytes)
    → has_prefix pattern (c ∷ s) ≡ true
    → find_text pattern (c ∷ s) ≡ some ([], drop (length pattern) (c ∷ s))
unfolding find_text
find_text-found pattern c s h = rw h refl

quoted-not_prefix :
    (key : Bytes) (c : ℕ) (s : Bytes)
    → (c == quote) ≡ false
    → has_prefix (quoted key) (c ∷ s) ≡ false
unfolding has_prefix quoted
quoted-not_prefix key c s h = ground arith

-- No quote, no occurrence.
pub find_text-skip :
    (key before s : Bytes)
    → Without quote before
    → find_text (quoted key) (before ++ s) ≡ later before (find_text (quoted key) s)
find_text-skip key [] s h = sym (later-nil (find_text (quoted key) s))
find_text-skip key (c ∷ before) s h =
    find_text-later (quoted key) c (before ++ s) (quoted-not_prefix key c (before ++ s) h.0)
    ∙ ap (later (c ∷ [])) (find_text-skip key before s h.1)
    ∙ later-later (c ∷ []) before (find_text (quoted key) s)

drop-quoted : (t rest : Bytes) → drop (length (quoted t)) (quote ∷ (t ++ quote ∷ rest)) ≡ rest
unfolding quoted
drop-quoted t rest =
    rw (length-append t (quote ∷ [])) (drop-append_add 1 (length t) t (quote ∷ rest) refl)

-- At a quote the piece behind it is the key, or the search goes on at the next quote.
find_text-piece :
    (key t rest : Bytes)
    → Without quote key
    → Without quote t
    → find_text (quoted key) (quote ∷ (t ++ quote ∷ rest)) ≡ (
        if eq_bytes key t
        then some ([], rest)
        else later (quote ∷ t) (find_text (quoted key) (quote ∷ rest)))
find_text-piece key t rest h k = elim (Bool-cases (eq_bytes key t)) [
  | inr e ↦ rw e (
      find_text-later (quoted key) quote (t ++ quote ∷ rest)
        (unfold has_prefix quoted in rw (has_prefix-piece key t rest h k) e)
      ∙ ap (later (quote ∷ [])) (find_text-skip key t (quote ∷ rest) k)
      ∙ later-later (quote ∷ []) t (find_text (quoted key) (quote ∷ rest)))
  | inl e ↦ rw e (
      let same : key ≡ t = (eq_bytes_iff key t).0 e in
      find_text-found (quoted key) quote (t ++ quote ∷ rest)
        (unfold has_prefix quoted in rw (has_prefix-piece key t rest h k) e)
      ∙ rw same (ap (λ s. some ([], s)) (drop-quoted t rest)))
]

has_prefix-Without : (key s : Bytes) → Without quote s → has_prefix (key ++ quote ∷ []) s ≡ false
unfolding has_prefix
has_prefix-Without [] [] h = refl
has_prefix-Without (c ∷ key) [] h = refl
has_prefix-Without [] (d ∷ s) h = ground arith
has_prefix-Without (c ∷ key) (d ∷ s) h = rw (has_prefix-Without key s h.1) (ground arith)

find_text-Without : (key s : Bytes) → Without quote s → find_text (quoted key) s ≡ none
find_text-Without key s h =
    ap (find_text (quoted key)) (sym (append-nil s))
    ∙ find_text-skip key s [] h
    ∙ unfold find_text has_prefix quoted in refl

-- No quote behind the last one.
find_text-closing : (key s : Bytes) → Without quote s → find_text (quoted key) (quote ∷ s) ≡ none
find_text-closing key s h =
    find_text-later (quoted key) quote s (unfold has_prefix quoted in has_prefix-Without key s h)
    ∙ ap (later (quote ∷ [])) (find_text-Without key s h)

-- Where an entry of the key begins, and what follows the key.
abbrev pub located : Bytes → List Entry → Option (Bytes × Bytes)
located key [] = none
located key (e ∷ es) =
    if eq_bytes key e.0
    then some ([], 58 ∷ 32 ∷ (value_text e.1 e.2 ++ after es))
    else later (quote ∷ (e.0 ++ quote ∷ 58 ∷ 32 ∷ (value_text e.1 e.2 ++ separator es)))
        (located key es)

-- The key is no string value, and what stands between the pieces is no key.
abbrev pub IsApart : Bytes → Entry → Type 0
IsApart key e = IsPlain e × ((e.1 && eq_bytes key e.2) ≡ false)

abbrev pub IsKey : Bytes → Type 0
IsKey key = Without quote key × Without colon key × Without 44 key

eq_bytes-Without : (c : ℕ) (key s : Bytes) → Without c key → eq_bytes key (c ∷ s) ≡ false
unfolding eq_bytes
eq_bytes-Without c [] s h = refl
eq_bytes-Without c (d ∷ key) s h = rw h.0 refl

-- What stands between a closing quote and the next entry is not the key.
abbrev IsOther : Bytes → Bytes → List Entry → Type 0
IsOther key gap [] = Unit
IsOther key gap (e ∷ es) = eq_bytes key (gap ++ 44 ∷ 32 ∷ []) ≡ false

find_text-gap :
    (key gap : Bytes) (es : List Entry)
    → Without quote key
    → Without quote gap
    → IsOther key gap es
    → find_text (quoted key) (quote ∷ (gap ++ after es))
      ≡ later (quote ∷ (gap ++ separator es)) (find_text (quoted key) (body es))
find_text-gap key gap [] h k e =
    unfold body render_entries in
    find_text-closing key (gap ++ 125 ∷ [])
      (All-append (λ d. (d == quote) ≡ false) gap (125 ∷ []) k (refl, tt))
    ∙ sym (ap (later (quote ∷ (gap ++ []))) (find_text-Without key (125 ∷ []) (refl, tt)))
find_text-gap key gap (f ∷ es) h k e =
    let rest : Bytes = f.0 ++ quote ∷ 58 ∷ 32 ∷ (value_text f.1 f.2 ++ after es) in
    let line : body (f ∷ es) ≡ quote ∷ rest = body-cons_lem f es in
    let whole : gap ++ after (f ∷ es) ≡ (gap ++ 44 ∷ 32 ∷ []) ++ quote ∷ rest =
      ap (λ s. gap ++ 44 ∷ 32 ∷ s) line ∙ simp append_assoc in
    ap (λ s. find_text (quoted key) (quote ∷ s)) whole
    ∙ find_text-piece key (gap ++ 44 ∷ 32 ∷ []) rest h
        (All-append (λ d. (d == quote) ≡ false) gap (44 ∷ 32 ∷ []) k (refl, (refl, tt)))
    ∙ rw e (ap (λ s. later (quote ∷ (gap ++ 44 ∷ 32 ∷ [])) (find_text (quoted key) s)) (sym line))

IsOther-nil : (key : Bytes) (es : List Entry) → Without 44 key → IsOther key [] es
IsOther-nil key [] h = tt
IsOther-nil key (e ∷ es) h = eq_bytes-Without 44 key (32 ∷ []) h

IsOther-colon : (key s : Bytes) (es : List Entry) → Without colon key → IsOther key (colon ∷ s) es
IsOther-colon key s [] h = tt
IsOther-colon key s (e ∷ es) h = eq_bytes-Without colon key (s ++ 44 ∷ 32 ∷ []) h

-- From a key that is another one the search goes on at the next entry.
find_text-value :
    (key : Bytes) (e : Entry) (es : List Entry)
    → IsKey key
    → IsApart key e
    → find_text (quoted key) (quote ∷ 58 ∷ 32 ∷ (value_text e.1 e.2 ++ after es))
      ≡ later
          (quote ∷ 58 ∷ 32 ∷ (value_text e.1 e.2 ++ separator es))
          (find_text (quoted key) (body es))
find_text-value key (name, true, v) es h k =
    let o = find_text (quoted key) (body es) in
    ap (λ s. find_text (quoted key) (quote ∷ s))
      {y = (58 ∷ 32 ∷ []) ++ quote ∷ (v ++ quote ∷ after es)}
      (unfold value_text quoted in simp append_assoc)
    ∙ find_text-piece key (58 ∷ 32 ∷ []) (v ++ quote ∷ after es) h.0 (refl, (refl, tt))
    ∙ rw (eq_bytes-Without colon key (32 ∷ []) h.1) (
        ap (later (quote ∷ 58 ∷ 32 ∷ [])) (
          find_text-piece key v (after es) h.0 k.0.1
          ∙ rw k.1 (
              ap (later (quote ∷ v)) (find_text-gap key [] es h.0 tt (IsOther-nil key es h.2))
              ∙ later-later (quote ∷ v) (quote ∷ separator es) o))
        ∙ later-later (quote ∷ 58 ∷ 32 ∷ []) ((quote ∷ v) ++ quote ∷ separator es) o
        ∙ ap (λ s. later s o) {x = (quote ∷ 58 ∷ 32 ∷ []) ++ ((quote ∷ v) ++ quote ∷ separator es)}
            {y = quote ∷ 58 ∷ 32 ∷ (value_text true v ++ separator es)}
            (unfold value_text quoted in simp append_assoc))
find_text-value key (name, false, v) es h k =
    unfold value_text in
    ap (λ s. find_text (quoted key) (quote ∷ s)) {y = (58 ∷ 32 ∷ v) ++ after es} refl
    ∙ find_text-gap key (58 ∷ 32 ∷ v) es h.0 (refl, (refl, k.0.1))
        (IsOther-colon key (32 ∷ v) es h.1)

pub find_text-body :
    (key : Bytes) (es : List Entry)
    → IsKey key
    → All (IsApart key) es
    → find_text (quoted key) (body es) ≡ located key es
find_text-body key [] h hs =
    unfold body render_entries in find_text-Without key (125 ∷ []) (refl, tt)
find_text-body key (e ∷ es) h hs = rw (body-cons_lem e es) (
    find_text-piece key e.0 (58 ∷ 32 ∷ (value_text e.1 e.2 ++ after es)) h.0 hs.0.0.0.0
    ∙ elim (Bool-cases (eq_bytes key e.0)) [
      | inl q ↦ rw q refl
      | inr q ↦ rw q (
          ap (later (quote ∷ e.0)) (
            find_text-value key e es h hs.0
            ∙ ap (later (quote ∷ 58 ∷ 32 ∷ (value_text e.1 e.2 ++ separator es)))
                (find_text-body key es h hs.1))
          ∙ later-later (quote ∷ e.0) (quote ∷ 58 ∷ 32 ∷ (value_text e.1 e.2 ++ separator es))
              (located key es))
    ])
