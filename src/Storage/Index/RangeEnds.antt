-- ===== src/Storage/Index/RangeEnds.antt =====
-- Which keys lie between the end points of a range scan: those of the numbers that compare.
use tsurugi_graph.Base.{
  ℕ, ◌<◌, ◌^◌, ◌≡◌, refl, sym, ap, ◌∙◌, inl, inr, Bool, true, false, ◌&&◌, ◌||◌, not, [], ◌∷◌, ◌++◌,
  arith, Bytes, ltb, length, drop-append, lt_bytes, has_prefix, has_prefix-append,
}
use tsurugi_graph.Keys.{
  prop_type_numeric, prop_type_string, encode_sortable_double, double_lt, decode-encode,
  lt_bytes-encode_sortable_double, lt_bytes_prefix,
}
use tsurugi_graph.Storage.Index.Read.{
  Op, eq, ne, gt, lt, ge, le, other, is_nan, is_zero, double_eq, double_less, compare_double,
}
use tsurugi_graph.Storage.Index.Ranges.{
  Beside, prefix_cases, meant, tail_matches, key_matches, IsIndexKey, lies_within,
}

-- A number that is neither NaN nor a zero is compared as its sign and magnitude are.
double_less-lt :
    (a b : ℕ)
    → is_nan a ≡ false
    → is_nan b ≡ false
    → is_zero b ≡ false
    → (double_less a b ≡ double_lt a b) × (double_less b a ≡ double_lt b a)
double_less-lt a b h k z = (ground arith, ground arith)

double_le-lt :
    (a b : ℕ)
    → is_nan a ≡ false
    → is_nan b ≡ false
    → is_zero b ≡ false
    → ((double_less b a || double_eq a b) ≡ not (double_lt a b))
      × ((double_less a b || double_eq a b) ≡ not (double_lt b a))
double_le-lt a b h k z = (ground arith, ground arith)

and_true : (b : Bool) → (b && true) ≡ b
and_true true = refl
and_true false = refl

lt_bytes-nil : (s : Bytes) → lt_bytes s [] ≡ false
unfolding lt_bytes
lt_bytes-nil [] = refl
lt_bytes-nil (c ∷ s) = refl

abbrev number_key : Bytes → ℕ → Bytes
number_key prefix x = prefix ++ prop_type_numeric ∷ encode_sortable_double x

-- How the key of a number lies to the end points.
module _ (prefix : Bytes) (x : ℕ) (m : x < 2 ^ 64) where
  number_key-above : lt_bytes (number_key prefix x) (prefix ++ prop_type_string ∷ []) ≡ true
  number_key-above = lt_bytes_prefix prefix _ _ ∙ unfold lt_bytes in refl

  number_key-below : lt_bytes (number_key prefix x) (prefix ++ prop_type_numeric ∷ []) ≡ false
  number_key-below =
      lt_bytes_prefix prefix _ _ ∙ unfold lt_bytes in lt_bytes-nil (encode_sortable_double x)

  number_key-order :
      (y : ℕ) → y < 2 ^ 64 → lt_bytes (number_key prefix x) (number_key prefix y) ≡ double_lt x y
  number_key-order y n =
      lt_bytes_prefix prefix _ _ ∙ unfold lt_bytes in lt_bytes-encode_sortable_double x y m n

-- Every operator but `>`, `>=` and `<=` has the range of `<`.
lies_within-meant :
    (op : Op) (prefix : Bytes) (num : ℕ) (key : Bytes)
    → lies_within op prefix num key ≡ lies_within (meant op) prefix num key
lies_within-meant gt prefix num key = refl
lies_within-meant ge prefix num key = refl
lies_within-meant le prefix num key = refl
lies_within-meant lt prefix num key = refl
lies_within-meant eq prefix num key = refl
lies_within-meant ne prefix num key = refl
lies_within-meant other prefix num key = refl

module _ (num : ℕ) (n : num < 2 ^ 64) (h : is_nan num ≡ false) (z : is_zero num ≡ false) where
  lies_within-number :
      (op : Op) (prefix : Bytes) (x : ℕ)
      → x < 2 ^ 64
      → is_nan x ≡ false
      → lies_within (meant op) prefix num (number_key prefix x) ≡ compare_double (meant op) x num
  unfolding compare_double
  lies_within-number op prefix x m k = go op
    where
      below : lies_within lt prefix num (number_key prefix x) ≡ double_less x num
      below =
          rw (number_key-below prefix x m) (number_key-order prefix x m num n)
          ∙ sym (double_less-lt x num k h z).0

      go :
          (op : Op)
          → lies_within (meant op) prefix num (number_key prefix x)
            ≡ compare_double (meant op) x num
      go gt = rw (number_key-above prefix x m) (
          rw (number_key-order prefix num n x m)
            (and_true (double_lt num x) ∙ sym (double_less-lt x num k h z).1))
      go ge = rw (number_key-above prefix x m) (
          rw (number_key-order prefix x m num n)
            (and_true (not (double_lt x num)) ∙ sym (double_le-lt x num k h z).0))
      go le =
          rw (number_key-below prefix x m)
            (rw (number_key-order prefix num n x m) (sym (double_le-lt x num k h z).1))
      go lt = below
      go eq = below
      go ne = below
      go other = below

  key_matches-number :
      (op : Op) (prefix : Bytes) (x : ℕ)
      → x < 2 ^ 64
      → key_matches op num prefix (number_key prefix x) ≡ compare_double op x num
  key_matches-number op prefix x m =
      let tail : Bytes = prop_type_numeric ∷ encode_sortable_double x in
      rw (has_prefix-append prefix tail) (
        rw (drop-append (length prefix) prefix tail refl)
          (ap (λ v. compare_double op v num) (decode-encode x m)))

-- A key on one side of all numbers, and of the end of the numbers.
abbrev Outside : Bytes → Bytes → Type 0
Outside prefix key =
    (below : Bool) × (lt_bytes key (prefix ++ prop_type_string ∷ []) ≡ below)
    × ((s : Bytes)
        → (lt_bytes key (prefix ++ prop_type_numeric ∷ s) ≡ below)
          × (lt_bytes (prefix ++ prop_type_numeric ∷ s) key ≡ not below))

Outside-tail :
    (prefix rest : Bytes)
    → has_prefix (prop_type_numeric ∷ []) rest ≡ false
    → Outside prefix (prefix ++ rest)
unfolding has_prefix lt_bytes
Outside-tail prefix [] h = (
  true,
  lt_bytes_prefix prefix [] _,
  λ s. (lt_bytes_prefix prefix [] _, lt_bytes_prefix prefix _ []),
)
Outside-tail prefix (t ∷ rest) h = (
  ltb t 1,
  lt_bytes_prefix prefix (t ∷ rest) _ ∙ ground (arith, lt_bytes-nil rest),
  λ s. (
    lt_bytes_prefix prefix (t ∷ rest) _ ∙ ground arith,
    lt_bytes_prefix prefix _ (t ∷ rest) ∙ ground arith,
  ),
)

Outside-Beside : (prefix key : Bytes) → Beside prefix key → Outside prefix key
Outside-Beside prefix key (below, none_there, sides) =
    (below, (sides prop_type_string []).0, λ s. sides prop_type_numeric s)

-- No such key lies between the end points of a scan.
lies_within-Outside :
    (op : Op) (prefix : Bytes) (num : ℕ) (key : Bytes)
    → Outside prefix key
    → lies_within (meant op) prefix num key ≡ false
lies_within-Outside op prefix num key (below, above, sides) = go op
  where
    enc : Bytes
    enc = encode_sortable_double num

    less : (not below && below) ≡ false
    less = ground arith

    under : lies_within lt prefix num key ≡ false
    under = rw (sides []).0 (rw (sides enc).0 less)

    go : (op : Op) → lies_within (meant op) prefix num key ≡ false
    go gt = rw (sides enc).1 (rw above less)
    go ge = rw (sides enc).0 (rw above less)
    go le = rw (sides []).0 (rw (sides enc).1 (ground arith))
    go lt = under
    go eq = under
    go ne = under
    go other = under

key_matches-tail :
    (op : Op) (num : ℕ) (prefix rest : Bytes)
    → has_prefix (prop_type_numeric ∷ []) rest ≡ false
    → key_matches op num prefix (prefix ++ rest) ≡ false
unfolding has_prefix
key_matches-tail op num prefix rest h =
    rw (has_prefix-append prefix rest)
      (rw (drop-append (length prefix) prefix rest refl) (go rest h))
  where
    go :
        (rest : Bytes)
        → has_prefix (prop_type_numeric ∷ []) rest ≡ false
        → tail_matches op num rest ≡ false
    go [] h = refl
    go (t ∷ rest) h = ground arith

has_prefix-append_both : (p q s : Bytes) → has_prefix (p ++ q) (p ++ s) ≡ has_prefix q s
unfolding has_prefix
has_prefix-append_both [] q s = refl
has_prefix-append_both (c ∷ p) q s = rw (has_prefix-append_both p q s) (ground arith)

-- The end points of the scan agree with the test of the key.
pub lies_within-key_matches :
    (op : Op) (num : ℕ) (prefix key : Bytes)
    → num < 2 ^ 64
    → is_nan num ≡ false
    → is_zero num ≡ false
    → IsIndexKey prefix key
    → lies_within op prefix num key ≡ key_matches (meant op) num prefix key
lies_within-key_matches op num prefix key n h z (inr (x, m, k, same)) = rw same (
    lies_within-meant op prefix num (number_key prefix x)
    ∙ lies_within-number num n h z op prefix x m k
    ∙ sym (key_matches-number num n h z (meant op) prefix x m))
lies_within-key_matches op num prefix key n h z (inl no_number) =
    lies_within-meant op prefix num key ∙ elim (prefix_cases prefix key) [
      | inr beside ↦
          lies_within-Outside op prefix num key (Outside-Beside prefix key beside)
          ∙ rw beside.1 refl
      | inl (rest, same) ↦
          let tail : has_prefix (prop_type_numeric ∷ []) rest ≡ false =
            sym (has_prefix-append_both prefix (prop_type_numeric ∷ []) rest)
            ∙ ap (has_prefix (prefix ++ prop_type_numeric ∷ [])) (sym same)
            ∙ no_number in
          rw same (
            lies_within-Outside op prefix num (prefix ++ rest) (Outside-tail prefix rest tail)
            ∙ sym (key_matches-tail (meant op) num prefix rest tail))
    ]
