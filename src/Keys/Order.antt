-- ===== src/Keys/Order.antt =====
-- The order of the store's keys, `memcmp` and then the length, on big-endian keys.
use tsurugi_graph.Base.{
  ℕ, zero, suc, ◌/◌, ◌%◌, ◌^◌, ◌<◌, ◌≡◌, refl, [], ◌∷◌, ◌++◌, arith, Bytes, length, ltb, ◌==◌,
  if◌then◌else◌, eq_bytes, eq_bytes_iff, lt_bytes, ◌∙◌,
}
use native.Mathlib.Nat.{pow-suc}
use tsurugi_graph.Keys.Bytes.{be_bytes, length-be_bytes, write_key, to_key, from_be-be_bytes}

pub lt_bytes_prefix : (p xs ys : Bytes) → lt_bytes (p ++ xs) (p ++ ys) ≡ lt_bytes xs ys
unfolding lt_bytes
lt_bytes_prefix [] xs ys = refl
lt_bytes_prefix (c ∷ p) xs ys = ground (arith, lt_bytes_prefix p xs ys)

lt_bytes-snoc :
    (xs ys : Bytes) (x y : ℕ)
    → length xs ≡ length ys
    → lt_bytes (xs ++ x ∷ []) (ys ++ y ∷ []) ≡ (if eq_bytes xs ys then ltb x y else lt_bytes xs ys)
unfolding lt_bytes eq_bytes
lt_bytes-snoc [] [] x y h = ground arith
lt_bytes-snoc [] (b ∷ ys) x y h = absurd (omega arith)
lt_bytes-snoc (a ∷ xs) [] x y h = absurd (omega arith)
lt_bytes-snoc (a ∷ xs) (b ∷ ys) x y h = ground (arith, lt_bytes-snoc xs ys x y (omega arith))

eq_bytes-be_bytes :
    (n a b : ℕ) → a < 256 ^ n → b < 256 ^ n → eq_bytes (be_bytes n a) (be_bytes n b) ≡ (a == b)
eq_bytes-be_bytes n a b ha hb = grind (
  arith,
  eq_bytes_iff (be_bytes n a) (be_bytes n b),
  from_be-be_bytes n a ha,
  from_be-be_bytes n b hb,
)

pub lt_bytes-be_bytes :
    (n a b : ℕ) → a < 256 ^ n → b < 256 ^ n → lt_bytes (be_bytes n a) (be_bytes n b) ≡ ltb a b
unfolding be_bytes
lt_bytes-be_bytes zero a b ha hb = unfold lt_bytes in ground arith
lt_bytes-be_bytes (suc n) a b ha hb =
    let pa : a / 256 < 256 ^ n = omega (arith, pow-suc 256 n) in
    let pb : b / 256 < 256 ^ n = omega (arith, pow-suc 256 n) in
    lt_bytes-snoc _ _ (a % 256) (b % 256)
      (cc (length-be_bytes n (a / 256), length-be_bytes n (b / 256)))
    ∙ ground (
      arith,
      eq_bytes-be_bytes n (a / 256) (b / 256) pa pb,
      lt_bytes-be_bytes n (a / 256) (b / 256) pa pb,
    )

-- The keys of two ids below 2 ^ 64 are ordered as the ids are: a scan meets nodes and edges in
-- the order of their ids.
pub lt_bytes-to_key : (a b : ℕ) → a < 2 ^ 64 → b < 2 ^ 64 → lt_bytes (to_key a) (to_key b) ≡ ltb a b
unfolding to_key write_key
lt_bytes-to_key a b ha hb = lt_bytes-be_bytes 8 a b (omega arith) (omega arith)
