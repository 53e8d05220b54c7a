-- ===== src/Parser/Print/Maps.antt =====
-- A map whose entries are set in the order of their keys.
use tsurugi_graph.Base.{
  ◌≡◌, refl, sym, ap, ◌∙◌, true, false, [], ◌∷◌, arith, Bytes, eq_bytes, lt_bytes,
}
use tsurugi_graph.Ast.{Expression, Entries, no_entries, entry, set_entry}
use tsurugi_graph.Parser.Print.{Above, IsMap}

-- The entries, set one by one.
unfoldable pub set_all : Entries → Entries → Entries
set_all no_entries map = map
set_all (entry k e es) map = set_all es (set_entry k e map)

joined : Entries → Entries → Entries
joined no_entries es = es
joined (entry k e m) es = entry k e (joined m es)

joined-nil : (m : Entries) → joined m no_entries ≡ m
unfolding joined
joined-nil no_entries = refl
joined-nil (entry k e m) = ap (entry k e) (joined-nil m)

joined_assoc : (a b c : Entries) → joined (joined a b) c ≡ joined a (joined b c)
unfolding joined
joined_assoc no_entries b c = refl
joined_assoc (entry k e a) b c = ap (entry k e) (joined_assoc a b c)

lt_bytes-asym :
    (xs ys : Bytes) → lt_bytes xs ys ≡ true → (eq_bytes xs ys ≡ false) × (lt_bytes ys xs ≡ false)
unfolding lt_bytes eq_bytes
lt_bytes-asym [] [] h = absurd (ground arith)
lt_bytes-asym [] (y ∷ ys) h = (refl, refl)
lt_bytes-asym (x ∷ xs) [] h = absurd (ground arith)
lt_bytes-asym (x ∷ xs) (y ∷ ys) h =
    (ground (arith, lt_bytes-asym xs ys), ground (arith, lt_bytes-asym xs ys))

-- Every key of the first map is below every one of the second.
Apart : Entries → Entries → Type 0
Apart no_entries es = Unit
Apart (entry k e m) es = Above k es × Apart m es

set_entry-last :
    (k : Bytes) (e : Expression) (m es : Entries)
    → Apart m (entry k e es)
    → set_entry k e m ≡ joined m (entry k e no_entries)
unfolding set_entry joined Apart
set_entry-last k e no_entries es h = refl
set_entry-last k e (entry j d m) es h =
    let (other, back) = lt_bytes-asym j k h.0.0 in
    rw other (rw back (ap (entry j d) (set_entry-last k e m es h.1)))

Apart-last :
    (k : Bytes) (e : Expression) (m es : Entries)
    → Apart m (entry k e es)
    → Above k es
    → Apart (joined m (entry k e no_entries)) es
unfolding joined Apart
Apart-last k e no_entries es h a = (a, tt)
Apart-last k e (entry j d m) es h a = (h.0.1, Apart-last k e m es h.1 a)

set_all-joined : (es m : Entries) → IsMap es → Apart m es → set_all es m ≡ joined m es
unfolding set_all
set_all-joined no_entries m h a = sym (joined-nil m)
set_all-joined (entry k e es) m h a =
    ap (set_all es) (set_entry-last k e m es a)
    ∙ set_all-joined es (joined m (entry k e no_entries)) h.1 (Apart-last k e m es a h.0)
    ∙ joined_assoc m (entry k e no_entries) es
    ∙ unfold joined in refl

-- A map is built by its entries in their order.
pub set_all-IsMap : (es : Entries) → IsMap es → set_all es no_entries ≡ es
unfolding joined Apart
set_all-IsMap es h = set_all-joined es no_entries h tt
