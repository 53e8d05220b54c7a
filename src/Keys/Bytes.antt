-- ===== src/Keys/Bytes.antt =====
-- `write_key`, `to_key`, `from_key_ptr` and `from_key`: big-endian keys, and that they are read
-- back. On the little-endian machine that the code is written for, `__builtin_bswap64` followed by
-- `memcpy` writes the most significant byte first.
use tsurugi_graph.Base.{
  ℕ, zero, suc, ◌+◌, ◌*◌, ◌/◌, ◌%◌, ◌^◌, ◌≤◌, ◌<◌, ◌≡◌, refl, ap, [], ◌∷◌, ◌++◌, arith, Bytes,
  length, take, ltb, if◌then◌else◌, length-append, length-take, take-append, sym, ◌∙◌, append-nil,
}
use native.Mathlib.Nat.{pow-suc}

-- The low `n` bytes of a number, the most significant first.
unfoldable pub be_bytes : ℕ → ℕ → Bytes
be_bytes zero v = []
be_bytes (suc n) v = be_bytes n (v / 256) ++ (v % 256) ∷ []

-- The number that bytes read in this order stand for, after those read before.
unfoldable pub from_be : ℕ → Bytes → ℕ
from_be acc [] = acc
from_be acc (b ∷ bs) = from_be (acc * 256 + b) bs

unfoldable pub write_key : ℕ → Bytes
write_key v = be_bytes 8 v

unfoldable pub to_key : ℕ → Bytes
unfolding write_key
to_key v = write_key v

-- Eight bytes are read. The callers see to it that they are there.
unfoldable pub from_key_ptr : Bytes → ℕ
from_key_ptr p = from_be 0 (take 8 p)

unfoldable pub from_key : Bytes → ℕ
from_key s = if ltb (length s) 8 then 0 else from_key_ptr s

pub length-be_bytes : (n v : ℕ) → length (be_bytes n v) ≡ n
unfolding be_bytes
length-be_bytes zero v = refl
length-be_bytes (suc n) v =
    omega
      (arith, length-append (be_bytes n (v / 256)) ((v % 256) ∷ []), length-be_bytes n (v / 256))

pub length-to_key : (v : ℕ) → length (to_key v) ≡ 8
unfolding to_key
length-to_key v = length-be_bytes 8 v

from_be-snoc :
    (acc : ℕ) (bs : Bytes) (b : ℕ) → from_be acc (bs ++ b ∷ []) ≡ from_be acc bs * 256 + b
unfolding from_be
from_be-snoc acc [] b = refl
from_be-snoc acc (c ∷ bs) b = from_be-snoc (acc * 256 + c) bs b

pub from_be-be_bytes : (n v : ℕ) → v < 256 ^ n → from_be 0 (be_bytes n v) ≡ v
unfolding be_bytes from_be
from_be-be_bytes zero v h = omega arith
from_be-be_bytes (suc n) v h = omega (
  arith,
  from_be-snoc 0 (be_bytes n (v / 256)) (v % 256),
  from_be-be_bytes n (v / 256) (omega (arith, pow-suc 256 n)),
)

-- A key is read back also where other bytes follow it.
pub from_key_ptr-append : (v : ℕ) (rest : Bytes) → v < 2 ^ 64 → from_key_ptr (to_key v ++ rest) ≡ v
unfolding from_key_ptr to_key write_key
from_key_ptr-append v rest h =
    cc (take-append 8 (be_bytes 8 v) rest (length-be_bytes 8 v), from_be-be_bytes 8 v (omega arith))

pub from_key_ptr-to_key : (v : ℕ) → v < 2 ^ 64 → from_key_ptr (to_key v) ≡ v
from_key_ptr-to_key v h = ap from_key_ptr (sym (append-nil (to_key v))) ∙ from_key_ptr-append v [] h

-- Every id below 2 ^ 64 is read back from its key.
pub from_key-to_key : (v : ℕ) → v < 2 ^ 64 → from_key (to_key v) ≡ v
unfolding from_key
from_key-to_key v h = ground (arith, length-to_key v, from_key_ptr-to_key v h)

-- What is shorter than a key reads as 0.
pub from_key_short : (s : Bytes) → length s < 8 → from_key s ≡ 0
unfolding from_key
from_key_short s h = ground arith

pub to_key-injective : (a b : ℕ) → a < 2 ^ 64 → b < 2 ^ 64 → to_key a ≡ to_key b → a ≡ b
to_key-injective a b ha hb e = cc (from_key-to_key a ha, from_key-to_key b hb)

-- Each byte that is read multiplies what was read before by 256.
pub from_be-bound : (acc : ℕ) (bs : Bytes) → acc * 256 ^ length bs ≤ from_be acc bs
unfolding from_be
from_be-bound acc [] = omega arith
from_be-bound acc (b ∷ bs) =
    omega
      (arith, from_be-bound (acc * 256 + b) bs, ap (λ (t : ℕ). acc * t) (pow-suc 256 (length bs)))

-- A key whose first byte is not 0 reads as a large number.
pub from_key_ptr-bound : (x : ℕ) (s : Bytes) → 7 ≤ length s → x * 2 ^ 56 ≤ from_key_ptr (x ∷ s)
unfolding from_key_ptr from_be
from_key_ptr-bound x s long =
    let bound = from_be-bound (0 * 256 + x) (take 7 s) in
    let e : length (take 7 s) ≡ 7 = length-take 7 s long in
    let scaled = rw e at bound in omega (arith, scaled)
