-- ===== src/Base/Text.antt =====
-- A C++ `std::string` as its list of bytes: equality, the order of `std::string::compare` (that of
-- the keys of the store too), prefixes and searches.
use Prim.Native.Nat.{ℕ}
use Prim.Native.Char.{code}
use Prim.Native.String.{String}
use mathlib.Core.Path.{◌≡◌, refl}
use mathlib.Core.Logic.{◌↔◌}
use mathlib.Core.Bool.{Bool, true, false, ◌&&◌}
use mathlib.Core.Option
use mathlib.Core.Option.{Option, none, some}
use mathlib.Core.Logic.{inl, inr}
use tsurugi_graph.Base.Lists.{length, All}
use Prim.Native.Nat.{◌<◌, ◌≤◌}
use mathlib.Core.List.{List, [], ◌∷◌, ◌++◌}
use native.Mathlib.Omega.{arith}
use tsurugi_graph.Base.Tests.{◌==◌, ltb, if◌then◌else◌, Bool-cases, Option-cases}

abbrev pub Bytes : Type 0
Bytes = List ℕ

-- The bytes of an ASCII text literal.
abbrev pub bytes : String → Bytes
bytes String.[] = []
bytes (String.◌∷◌ c s) = code c ∷ bytes s

unfoldable pub eq_bytes : Bytes → Bytes → Bool
eq_bytes [] [] = true
eq_bytes [] (y ∷ ys) = false
eq_bytes (x ∷ xs) [] = false
eq_bytes (x ∷ xs) (y ∷ ys) = x == y && eq_bytes xs ys

eq_bytes→eq : (xs ys : Bytes) → eq_bytes xs ys ≡ true → xs ≡ ys
unfolding eq_bytes
eq_bytes→eq [] [] h = refl
eq_bytes→eq [] (y ∷ ys) h = ground arith
eq_bytes→eq (x ∷ xs) [] h = ground arith
eq_bytes→eq (x ∷ xs) (y ∷ ys) h = ground (arith, eq_bytes→eq xs ys)

pub eq_bytes_refl : (xs : Bytes) → eq_bytes xs xs ≡ true
unfolding eq_bytes
eq_bytes_refl [] = refl
eq_bytes_refl (x ∷ xs) = ground (arith, eq_bytes_refl xs)

pub eq_bytes_iff : (xs ys : Bytes) → (eq_bytes xs ys ≡ true) ↔ (xs ≡ ys)
eq_bytes_iff xs ys = (eq_bytes→eq xs ys, λ h. cc (eq_bytes_refl xs, h))

-- The order of `std::string`, byte by byte, a prefix first.
unfoldable pub lt_bytes : Bytes → Bytes → Bool
lt_bytes [] [] = false
lt_bytes [] (y ∷ ys) = true
lt_bytes (x ∷ xs) [] = false
lt_bytes (x ∷ xs) (y ∷ ys) = let rest = lt_bytes xs ys in if x == y then rest else ltb x y

-- `memcmp(s, p, p.size()) == 0` on an `s` of at least that size.
unfoldable pub has_prefix : Bytes → Bytes → Bool
has_prefix [] s = true
has_prefix (c ∷ p) [] = false
has_prefix (c ∷ p) (d ∷ s) = c == d && has_prefix p s

pub has_prefix-append : (p s : Bytes) → has_prefix p (p ++ s) ≡ true
unfolding has_prefix
has_prefix-append [] s = refl
has_prefix-append (c ∷ p) s = ground (arith, has_prefix-append p s)

-- `s.find(c)`: what stands before the first `c`, and what follows it.
unfoldable pub find_byte : ℕ → Bytes → Option (Bytes × Bytes)
find_byte c [] = none
find_byte c (d ∷ s) =
    let rest = Option.map (λ (p : Bytes × Bytes). (d ∷ p.0, p.1)) (find_byte c s) in
    if d == c then some ([], s) else rest

-- `while (pos < s.size() && p(s[pos])) pos++;`: what is passed over, and what is left.
unfoldable pub span : (ℕ → Bool) → Bytes → Bytes × Bytes
span p [] = ([], [])
span p (c ∷ s) = let (xs, ys) = span p s in if p c then (c ∷ xs, ys) else ([], c ∷ s)

abbrev pub Holds : (ℕ → Bool) → Bytes → Type 0
Holds p = All (λ c. p c ≡ true)

abbrev pub Without : ℕ → Bytes → Type 0
Without c = All (λ d. (d == c) ≡ false)

pub find_byte-append :
    (c : ℕ) (xs s : Bytes) → Without c xs → find_byte c (xs ++ c ∷ s) ≡ some (xs, s)
unfolding find_byte
find_byte-append c [] s h = ground arith
find_byte-append c (d ∷ xs) s h = rw h.0 (rw (find_byte-append c xs s h.1))

pub span-append :
    (p : ℕ → Bool) (xs : Bytes) (c : ℕ) (s : Bytes)
    → Holds p xs
    → p c ≡ false
    → span p (xs ++ c ∷ s) ≡ (xs, c ∷ s)
unfolding span
span-append p [] c s h e = rw e
span-append p (d ∷ xs) c s h e = rw h.0 (rw (span-append p xs c s h.1 e))

pub length-find_byte :
    (c : ℕ) (s : Bytes) (p : Bytes × Bytes) → find_byte c s ≡ some p → length p.1 < length s
unfolding find_byte
length-find_byte c [] p h = cc
length-find_byte c (d ∷ s) p h = elim (Bool-cases (d == c)) [
  | inl e ↦ ground arith
  | inr e ↦ elim (Option-cases (find_byte c s)) [
    | inl f ↦ ground arith
    | inr (q, f) ↦ let ih = length-find_byte c s q f in ground arith
  ]
]

pub length-span : (p : ℕ → Bool) (s : Bytes) → length (span p s).1 ≤ length s
unfolding span
length-span p [] = omega arith
length-span p (c ∷ s) = ground (arith, length-span p s)
