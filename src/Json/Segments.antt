-- ===== src/Json/Segments.antt =====
-- A rendered text as its pieces between quotes.
use tsurugi_graph.Base.{
  ℕ, ◌≡◌, refl, ap, ◌∙◌, ◌&&◌, none, [], ◌∷◌, ◌++◌, append_assoc, arith, List, Bytes, ◌==◌,
  eq_bytes, find_byte, has_prefix, Without,
}
use tsurugi_graph.Json.Parse.{quote, colon}
use tsurugi_graph.Json.Render.{render, render_entries, render_entry, quoted, value_text}
use tsurugi_graph.Json.RoundTrip.{Entry, texts, IsReadable, body, body_one, body_more}

-- The key and the value have no quote inside, and the key no colon.
abbrev pub IsPlain : Entry → Type 0
IsPlain e = IsReadable e × Without quote e.2 × Without colon e.0

pub find_byte-Without : (c : ℕ) (s : Bytes) → Without c s → find_byte c s ≡ none
unfolding find_byte
find_byte-Without c [] h = refl
find_byte-Without c (d ∷ s) h = rw h.0 (rw (find_byte-Without c s h.1) refl)

-- A key with its quote stands at the front of a piece if and only if it is the piece.
pub has_prefix-piece :
    (key t rest : Bytes)
    → Without quote key
    → Without quote t
    → has_prefix (key ++ quote ∷ []) (t ++ quote ∷ rest) ≡ eq_bytes key t
unfolding has_prefix eq_bytes
has_prefix-piece [] [] rest h k = refl
has_prefix-piece [] (d ∷ t) rest h k = ground arith
has_prefix-piece (c ∷ key) [] rest h k = ground arith
has_prefix-piece (c ∷ key) (d ∷ t) rest h k =
    ap (λ b. c == d && b) (has_prefix-piece key t rest h.1 k.1)

-- What stands between an entry and the next one.
abbrev pub separator : List Entry → Bytes
separator [] = []
separator (e ∷ es) = 44 ∷ 32 ∷ []

pub separator-Without : (es : List Entry) → Without quote (separator es)
separator-Without [] = tt
separator-Without (e ∷ es) = (refl, (refl, tt))

-- What follows the value of an entry.
abbrev pub after : List Entry → Bytes
after es = separator es ++ body es

pub body-cons_lem :
    (e : Entry) (es : List Entry)
    → body (e ∷ es) ≡ quote ∷ (e.0 ++ quote ∷ 58 ∷ 32 ∷ (value_text e.1 e.2 ++ after es))
unfolding render_entry quoted
body-cons_lem e [] = body_one e ∙ unfold body render_entries in simp append_assoc
body-cons_lem e (f ∷ es) = body_more e f es ∙ simp append_assoc

pub render-body : (es : List Entry) → render (texts es) ≡ 123 ∷ body es
unfolding render body
render-body es = refl
