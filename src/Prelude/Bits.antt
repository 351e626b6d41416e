-- ===== src/Prelude/Bits.antt =====
-- `&` with a low mask and `|` of disjoint fields, as arithmetic at every width.
use Prim.Native.Nat.{
  ℕ, zero, suc, ◌+◌, ◌-◌, ◌*◌, ◌/◌, ◌%◌, ◌^◌, ◌≤◌, ◌<◌, min, max, bit_and, bit_or, digits,
  bit_and-bitwise, bit_or-bitwise,
}
use mathlib.Core.Path.{◌≡◌, refl, ap, ◌∙◌}
use native.Mathlib.Nat.{
  pow-zero, pow-suc, one-le-pow, div-add-mod, mod-lt, mod-eq_of_lt, mul-add-mod_self_left,
}
use native.Mathlib.Omega.{arith}

-- Both operations are one digit recursion, `z` at the end of the first number and `op` on a digit.
module _ (z : ℕ → ℕ) (op : ℕ → ℕ → ℕ) where
  -- More fuel than the first number changes nothing.
  enough_digits : (n m a b : ℕ) → a ≤ n → a ≤ m → digits z op n a b ≡ digits z op m a b
  enough_digits zero zero zero b p q = refl
  enough_digits zero (suc m) zero b p q = refl
  enough_digits (suc n) zero zero b p q = refl
  enough_digits (suc n) (suc m) zero b p q = refl
  enough_digits zero m (suc a) b p q = absurd (omega arith)
  enough_digits (suc n) zero (suc a) b p q = absurd (omega arith)
  enough_digits (suc n) (suc m) (suc a) b p q =
      let rest = enough_digits n m (suc a / 2) (b / 2) (omega arith) (omega arith) in
      ap (λ t. t * 2 + op (suc a % 2) (b % 2)) rest

  -- The last digit, and the rest halved.
  last_digit :
      (a b : ℕ)
      → digits z op (suc a) (suc a) b
        ≡ digits z op (suc a / 2) (suc a / 2) (b / 2) * 2 + op (suc a % 2) (b % 2)
  last_digit a b =
      ap (λ t. t * 2 + op (suc a % 2) (b % 2))
        (enough_digits a (suc a / 2) (suc a / 2) (b / 2) (omega arith) (omega arith))

bit_and_halves : (a b : ℕ) → bit_and a b ≡ bit_and (a / 2) (b / 2) * 2 + min (a % 2) (b % 2)
bit_and_halves zero b = omega (arith, bit_and-bitwise 0 b, bit_and-bitwise 0 (b / 2))
bit_and_halves (suc a) b = omega (
  arith,
  bit_and-bitwise (suc a) b,
  bit_and-bitwise (suc a / 2) (b / 2),
  last_digit (λ b. 0) min a b,
)

bit_or_halves : (a b : ℕ) → bit_or a b ≡ bit_or (a / 2) (b / 2) * 2 + max (a % 2) (b % 2)
bit_or_halves zero b = omega (arith, bit_or-bitwise 0 b, bit_or-bitwise 0 (b / 2))
bit_or_halves (suc a) b = omega (
  arith,
  bit_or-bitwise (suc a) b,
  bit_or-bitwise (suc a / 2) (b / 2),
  last_digit (λ b. b) max a b,
)

bit_or_zero_left : (b : ℕ) → bit_or 0 b ≡ b
bit_or_zero_left b = bit_or-bitwise 0 b

-- `(1 << k) - 1`
abbrev pub low_mask : ℕ → ℕ
low_mask k = 2 ^ k - 1

-- `x >> k` and `x << k`
abbrev pub shr : ℕ → ℕ → ℕ
shr x k = x / 2 ^ k

abbrev pub shl : ℕ → ℕ → ℕ
shl x k = x * 2 ^ k

-- By halving: `n` bounds the number of rounds.
bit_and_zero_below : (n a : ℕ) → a ≤ n → bit_and a 0 ≡ 0
bit_and_zero_below n zero h = bit_and-bitwise 0 0
bit_and_zero_below zero (suc a) h = absurd (omega arith)
bit_and_zero_below (suc n) (suc a) h =
    omega (arith, bit_and_halves (suc a) 0, bit_and_zero_below n (suc a / 2) (omega arith))

-- The remainder by a power of two, one digit at a time.
mod_halves : (m a : ℕ) → 0 < m → a % (2 * m) ≡ a / 2 % m * 2 + a % 2
mod_halves m a h =
    let q : ℕ = a / 2 / m in
    let r : ℕ = a / 2 % m * 2 + a % 2 in
    let split : a ≡ 2 * m * q + r = omega (arith, div-add-mod (a / 2) m) in
    let below : r < 2 * m = omega (arith, mod-lt (a / 2) h) in
    ap (λ t. t % (2 * m)) split ∙ mul-add-mod_self_left (2 * m) q r ∙ mod-eq_of_lt below

pub bit_and-low_mask : (k a : ℕ) → bit_and a (low_mask k) ≡ a % 2 ^ k
bit_and-low_mask zero a = omega (arith, bit_and_zero_below a a (omega arith))
bit_and-low_mask (suc k) a =
    let double : 2 ^ suc k ≡ 2 * 2 ^ k = omega (arith, pow-suc 2 k) in
    let positive : 0 < 2 ^ k = one-le-pow k 2 (omega arith) in
    omega (
      arith,
      bit_and_halves a (low_mask (suc k)),
      ap (λ t. bit_and (a / 2) t) {x = low_mask (suc k) / 2} {y = low_mask k} (omega arith),
      bit_and-low_mask k (a / 2),
      ap (λ t. a % t) double,
      mod_halves (2 ^ k) a positive,
    )

-- A field above the bits that are in use is added.
pub bit_or-shl : (k a b : ℕ) → a < 2 ^ k → bit_or a (shl b k) ≡ a + b * 2 ^ k
bit_or-shl zero zero b h = omega (arith, bit_or_zero_left (b * 1))
bit_or-shl zero (suc a) b h = absurd (omega arith)
bit_or-shl (suc k) a b h =
    let double : b * 2 ^ suc k ≡ 2 * (b * 2 ^ k) = omega (arith, ap (λ t. b * t) (pow-suc 2 k)) in
    omega (
      arith,
      bit_or_halves a (shl b (suc k)),
      ap (λ t. bit_or (a / 2) t) {x = shl b (suc k) / 2} {y = shl b k} (omega arith),
      bit_or-shl k (a / 2) b (omega (arith, pow-suc 2 k)),
    )

pub pow-add : (n j k : ℕ) → n ^ (j + k) ≡ n ^ j * n ^ k
pow-add n j zero = omega (
  arith,
  pow-zero n,
  ap (λ t. n ^ t) {x = j + 0} {y = j} (omega arith),
  ap (λ t. n ^ j * t) (pow-zero n),
)
pow-add n j (suc k) = omega (
  arith,
  ap (λ t. n ^ t) {x = j + suc k} {y = suc (j + k)} (omega arith),
  pow-suc n (j + k),
  ap (λ t. n ^ j * t) (pow-suc n k),
  ap (λ t. t * n) (pow-add n j k),
)
