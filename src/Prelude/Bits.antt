-- ===== src/Prelude/Bits.antt =====
-- Masks of the form `2 ^ w - 2 ^ k`, by the digit recursion of `bit_and`.
use Prim.Native.Nat.{
  ℕ, zero, suc, ◌+◌, ◌-◌, ◌*◌, ◌/◌, ◌%◌, ◌^◌, ◌≤◌, ◌<◌, min, max, bit_and, bit_or, digits,
  bit_and-bitwise, bit_or-bitwise,
}
use mathlib.Core.Path.{◌≡◌, refl, sym, ap, subst, ◌∙◌}
use native.Mathlib.Omega.{arith}
use native.Mathlib.Nat.{pow-suc, pow-zero, div-add-mod, mod-lt, one-le-pow, zero-add, suc-add}

abbrev and_fuel : ℕ → ℕ → ℕ → ℕ
and_fuel n a b = digits (λ b. zero) min n a b

-- Fuel beyond the first argument changes nothing.
and_fuel_enough : (n m a b : ℕ) → a ≤ n → a ≤ m → and_fuel n a b ≡ and_fuel m a b
and_fuel_enough zero zero a b p q = refl
and_fuel_enough zero (suc m) zero b p q = refl
and_fuel_enough zero (suc m) (suc a) b p q = absurd (omega arith)
and_fuel_enough (suc n) zero zero b p q = refl
and_fuel_enough (suc n) zero (suc a) b p q = absurd (omega arith)
and_fuel_enough (suc n) (suc m) zero b p q = refl
and_fuel_enough (suc n) (suc m) (suc a) b p q =
    omega (arith, and_fuel_enough n m (suc a / 2) (b / 2) (omega arith) (omega arith))

bit_and-zero_left : (b : ℕ) → bit_and 0 b ≡ 0
bit_and-zero_left b = bit_and-bitwise 0 b

pub bit_and-digit : (a b : ℕ) → bit_and a b ≡ bit_and (a / 2) (b / 2) * 2 + min (a % 2) (b % 2)
bit_and-digit zero b = omega (arith, bit_and-zero_left b, bit_and-zero_left (b / 2))
bit_and-digit (suc a) b = omega (
  arith,
  bit_and-bitwise (suc a) b,
  bit_and-bitwise (suc a / 2) (b / 2),
  and_fuel_enough a (suc a / 2) (suc a / 2) (b / 2) (omega arith) (omega arith),
)

bit_and-zero_below : (n a : ℕ) → a ≤ n → bit_and a 0 ≡ 0
bit_and-zero_below n zero h = bit_and-zero_left 0
bit_and-zero_below zero (suc a) h = absurd (omega arith)
bit_and-zero_below (suc n) (suc a) h =
    omega (arith, bit_and-digit (suc a) 0, bit_and-zero_below n (suc a / 2) (omega arith))

pub bit_and-zero_right : (a : ℕ) → bit_and a 0 ≡ 0
bit_and-zero_right a = bit_and-zero_below a a (omega arith)

pow_twice : (k q : ℕ) → 2 ^ suc k * q ≡ 2 * (2 ^ k * q)
pow_twice k q = rw (pow-suc 2 k) (omega arith)

bit_and-even : (x m : ℕ) → bit_and x (2 * m) ≡ 2 * bit_and (x / 2) m
bit_and-even x m =
    let half : 2 * m / 2 ≡ m = omega arith in bit_and-digit x (2 * m) ∙ rw half (omega arith)

bit_and-odd : (x m : ℕ) → bit_and x (2 * m + 1) ≡ 2 * bit_and (x / 2) m + x % 2
bit_and-odd x m =
    let half : (2 * m + 1) / 2 ≡ m = omega arith in
    bit_and-digit x (2 * m + 1) ∙ rw half (omega arith)

-- Low zero bits of the mask clear the low bits of the word.
pub bit_and-shift :
    (k q r m : ℕ) → r < 2 ^ k → bit_and (2 ^ k * q + r) (2 ^ k * m) ≡ 2 ^ k * bit_and q m
bit_and-shift zero q r m h =
    let one_q : 2 ^ zero * q + r ≡ q = omega (arith, pow-zero 2) in
    let one_m : 2 ^ zero * m ≡ m = omega arith in rw (one_q, one_m) (omega arith)
bit_and-shift (suc k) q r m h =
    let halved : (2 * (2 ^ k * q) + r) / 2 ≡ 2 ^ k * q + r / 2 = omega arith in
    rw (pow_twice k q, pow_twice k m, pow_twice k (bit_and q m), bit_and-even, halved)
      (ap (λ t. 2 * t) (bit_and-shift k q (r / 2) m (omega (arith, pow-suc 2 k))))

-- A mask of ones keeps the low bits.
pub bit_and-ones : (j c d : ℕ) → d < 2 ^ j → bit_and (2 ^ j * c + d) (2 ^ j - 1) ≡ d
bit_and-ones zero c d h = omega (arith, pow-zero 2, bit_and-zero_right (2 ^ zero * c + d))
bit_and-ones (suc j) c d h =
    let ones : 2 ^ suc j - 1 ≡ 2 * (2 ^ j - 1) + 1 =
      omega (arith, pow-suc 2 j, one-le-pow j 2 (omega arith)) in
    let halved : (2 * (2 ^ j * c) + d) / 2 ≡ 2 ^ j * c + d / 2 = omega arith in
    rw (ones, pow_twice j c, bit_and-odd, halved)
      (omega (arith, bit_and-ones j c (d / 2) (omega (arith, pow-suc 2 j))))

pub pow-add : (k j : ℕ) → 2 ^ k * 2 ^ j ≡ 2 ^ (k + j)
pow-add zero j = rw zero-add (omega arith)
pow-add (suc k) j =
    rw (pow_twice k (2 ^ j), suc-add, pow-suc 2 (k + j)) (omega (arith, pow-add k j))

mask-product : (a b n : ℕ) → a * b ≡ n → n - a ≡ a * (b - 1)
mask-product a zero n h = omega arith
mask-product a (suc b) n h =
    let top : suc b - 1 ≡ b = omega arith in rw top (rw (← h) (omega arith))

quotient-lt : (a b n x q r : ℕ) → a * b ≡ n → x < n → a * q + r ≡ x → q < b
quotient-lt a b n x q r h small split = grind arith

bit_and-ones_self : (j q : ℕ) → q < 2 ^ j → bit_and q (2 ^ j - 1) ≡ q
bit_and-ones_self j q h =
    let plain : 2 ^ j * 0 + q ≡ q = omega arith in
    subst (λ t. bit_and t (2 ^ j - 1) ≡ q) plain (bit_and-ones j 0 q h)

-- `x & ~(2^k - 1)` on 32 bits is the greatest multiple of `2^k` that is at most `x`.
pub bit_and-align :
    (k j x : ℕ)
    → k + j ≡ 32
    → x < 2 ^ 32
    → (d : ℕ) × (bit_and x (2 ^ 32 - 2 ^ k) ≡ 2 ^ k * d) × (2 ^ k * d ≤ x) × (x < 2 ^ k * d + 2 ^ k)
bit_and-align k j x total small =
    let whole : 2 ^ k * 2 ^ j ≡ 2 ^ 32 = pow-add k j ∙ ap (λ (n : ℕ). 2 ^ n) total in
    let below : x % 2 ^ k < 2 ^ k = mod-lt x (one-le-pow k 2 (omega arith)) in
    let parts : 2 ^ k * (x / 2 ^ k) + x % 2 ^ k ≡ x = div-add-mod x (2 ^ k) in
    let fits : x / 2 ^ k < 2 ^ j =
      quotient-lt (2 ^ k) (2 ^ j) (2 ^ 32) x (x / 2 ^ k) (x % 2 ^ k) whole small parts in
    let masked : bit_and x (2 ^ k * (2 ^ j - 1)) ≡ 2 ^ k * (x / 2 ^ k) =
      ap (λ t. bit_and t (2 ^ k * (2 ^ j - 1))) (sym parts)
      ∙ bit_and-shift k (x / 2 ^ k) (x % 2 ^ k) (2 ^ j - 1) below
      ∙ ap (λ t. 2 ^ k * t) (bit_and-ones_self j (x / 2 ^ k) fits) in
    (x / 2 ^ k, rw (mask-product (2 ^ k) (2 ^ j) (2 ^ 32) whole) masked, omega arith, omega arith)

abbrev or_fuel : ℕ → ℕ → ℕ → ℕ
or_fuel n a b = digits (λ b. b) max n a b

or_fuel_enough : (n m a b : ℕ) → a ≤ n → a ≤ m → or_fuel n a b ≡ or_fuel m a b
or_fuel_enough zero zero a b p q = refl
or_fuel_enough zero (suc m) zero b p q = refl
or_fuel_enough zero (suc m) (suc a) b p q = absurd (omega arith)
or_fuel_enough (suc n) zero zero b p q = refl
or_fuel_enough (suc n) zero (suc a) b p q = absurd (omega arith)
or_fuel_enough (suc n) (suc m) zero b p q = refl
or_fuel_enough (suc n) (suc m) (suc a) b p q =
    omega (arith, or_fuel_enough n m (suc a / 2) (b / 2) (omega arith) (omega arith))

pub bit_or-zero_left : (b : ℕ) → bit_or 0 b ≡ b
bit_or-zero_left b = bit_or-bitwise 0 b

pub bit_or-digit : (a b : ℕ) → bit_or a b ≡ bit_or (a / 2) (b / 2) * 2 + max (a % 2) (b % 2)
bit_or-digit zero b = omega (arith, bit_or-zero_left b, bit_or-zero_left (b / 2))
bit_or-digit (suc a) b = omega (
  arith,
  bit_or-bitwise (suc a) b,
  bit_or-bitwise (suc a / 2) (b / 2),
  or_fuel_enough a (suc a / 2) (suc a / 2) (b / 2) (omega arith) (omega arith),
)

bit_or-zero_below : (n a : ℕ) → a ≤ n → bit_or a 0 ≡ a
bit_or-zero_below n zero h = bit_or-zero_left 0
bit_or-zero_below zero (suc a) h = absurd (omega arith)
bit_or-zero_below (suc n) (suc a) h =
    omega (arith, bit_or-digit (suc a) 0, bit_or-zero_below n (suc a / 2) (omega arith))

-- Where the low bits are clear, `|` with less than `2^k` is addition.
pub bit_or-add : (k q r : ℕ) → r < 2 ^ k → bit_or (2 ^ k * q) r ≡ 2 ^ k * q + r
bit_or-add zero q zero h =
    omega (arith, bit_or-zero_below (2 ^ zero * q) (2 ^ zero * q) (omega arith))
bit_or-add zero q (suc r) h = absurd (omega (arith, pow-zero 2))
bit_or-add (suc k) q r h =
    let halved : 2 * (2 ^ k * q) / 2 ≡ 2 ^ k * q = omega arith in
    rw (pow_twice k q, bit_or-digit, halved)
      (omega (arith, bit_or-add k q (r / 2) (omega (arith, pow-suc 2 k))))
