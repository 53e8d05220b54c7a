-- ===== src/Parser/Ends.antt =====
-- Parsers that end: on enough fuel they fail with a message, or return with fewer than a number of
-- tokens left.
use tsurugi_graph.Base.{
  ℕ, ◌<◌, ◌≡◌, refl, inl, inr, Bool, true, false, [], ◌∷◌, arith, Bytes, ◌==◌, if◌then◌else◌,
  length, Bool-cases,
}
use tsurugi_graph.Lexer.{TokenType}
use tsurugi_graph.Parser.Monad.{
  Result, ok, failed, out_of_fuel, bind, Tokens, tag, next_is, rest_of, match, consume,
}

abbrev pub Within {ℓ} : {A : Type ℓ} → ℕ → Result (A × Tokens) → Type 0
Within n (ok p) = length p.1 < n
Within n (failed msg) = Unit
Within n out_of_fuel = ⊥

pub record Ends {ℓ} {A : Type ℓ} (n : ℕ) (r : Result (A × Tokens)) : Type 0 where
  pub ends : Within n r

pub ok-Ends {ℓ} : {A : Type ℓ} (n : ℕ) (a : A) (ts : Tokens) → length ts < n → Ends n (ok (a, ts))
ok-Ends n a ts h = record { ends = h }

pub failed-Ends {ℓ} : {A : Type ℓ} (n : ℕ) (msg : Bytes) → Ends {A = A} n (failed msg)
failed-Ends n msg = record { ends = tt }

pub bind-Ends {ℓ κ} :
    {A : Type ℓ} {B : Type κ} (n m : ℕ) (r : Result (A × Tokens))
    {f : A × Tokens → Result (B × Tokens)}
    → Ends n r
    → ((p : A × Tokens) → length p.1 < n → Ends m (f p))
    → Ends m (bind r f)
bind-Ends n m (ok p) h k = k p h.ends
bind-Ends n m (failed msg) h k = record { ends = tt }
bind-Ends n m out_of_fuel h k = elim h.ends [ ]

pub if-Ends {ℓ} :
    {A : Type ℓ} {n : ℕ} {x y : Result (A × Tokens)} (b : Bool)
    → (b ≡ true → Ends n x)
    → (b ≡ false → Ends n y)
    → Ends n (if b then x else y)
if-Ends true h k = h refl
if-Ends false h k = k refl

-- A token of any type but that of the end of the input is there to be taken.
pub length-rest_of :
    (type : TokenType) (ts : Tokens)
    → tag type == 26 ≡ false
    → next_is type ts ≡ true
    → length (rest_of ts) < length ts
length-rest_of type [] ne h = absurd (ground arith)
length-rest_of type (t ∷ ts) ne h = omega arith

pub consume-Ends :
    (type : TokenType) (msg : Bytes) (ts : Tokens)
    → tag type == 26 ≡ false
    → Ends (length ts) (consume type msg ts)
unfolding consume
consume-Ends type msg ts ne =
    if-Ends (next_is type ts) (λ h. ok-Ends _ _ _ (length-rest_of type ts ne h))
      (λ h. failed-Ends _ _)

-- A token that may be taken, and what follows in either case.
pub match-Ends {ℓ} :
    {B : Type ℓ} (type : TokenType) (m : ℕ) (ts : Tokens) (f : Bool × Tokens → Result (B × Tokens))
    → tag type == 26 ≡ false
    → (length (rest_of ts) < length ts → Ends m (f (true, rest_of ts)))
    → Ends m (f (false, ts))
    → Ends m (bind (match type ts) f)
unfolding match
match-Ends type m ts f ne h k = elim (Bool-cases (next_is type ts)) [
  | inl e ↦ rw e (h (length-rest_of type ts ne e))
  | inr e ↦ rw e k
]
