-- ===== src/Gpio/Bits.antt =====
-- The single bits of a word.
use Prim.Native.Nat.{bit_and, bit_or, max, min}
use native.Mathlib.Nat.{pow-suc, pow-zero, one-le-pow}
use monoimage.Prelude.{
  ℕ, zero, suc, ◌-◌, ◌/◌, ◌%◌, ◌^◌, ◌<◌, ◌≡◌, refl, ◌∙◌, ◌==◌, if◌then◌else◌, arith,
}
use monoimage.Prelude.Bits.{bit_and-digit, bit_or-digit}
use monoimage.Gpio.{word, clear_bit, set_bit}

unfoldable pub bit : (x j : ℕ) → ℕ
bit x zero = x % 2
bit x (suc j) = bit (x / 2) j

bit-bit_or : (a b j : ℕ) → bit (bit_or a b) j ≡ max (bit a j) (bit b j)
unfolding bit
bit-bit_or a b zero = omega (arith, bit_or-digit a b)
bit-bit_or a b (suc j) =
    let half : bit_or a b / 2 ≡ bit_or (a / 2) (b / 2) = omega (arith, bit_or-digit a b) in
    rw half (bit-bit_or (a / 2) (b / 2) j)

bit-bit_and : (a b j : ℕ) → bit (bit_and a b) j ≡ min (bit a j) (bit b j)
unfolding bit
bit-bit_and a b zero = omega (arith, bit_and-digit a b)
bit-bit_and a b (suc j) =
    let half : bit_and a b / 2 ≡ bit_and (a / 2) (b / 2) = omega (arith, bit_and-digit a b) in
    rw half (bit-bit_and (a / 2) (b / 2) j)

bit_lt : (x j : ℕ) → bit x j < 2
unfolding bit
bit_lt x zero = omega arith
bit_lt x (suc j) = bit_lt (x / 2) j

-- A power of two has one bit, and its complement in `w` bits has all others.
bit-zero : (j : ℕ) → bit 0 j ≡ 0
unfolding bit
bit-zero zero = refl
bit-zero (suc j) = bit-zero j

bit-pow : (k j : ℕ) → bit (2 ^ k) j ≡ (if j == k then 1 else 0)
unfolding bit
bit-pow zero zero = refl
bit-pow zero (suc j) = bit-zero j ∙ ground arith
bit-pow (suc k) zero = ground (arith, pow-suc 2 k)
bit-pow (suc k) (suc j) =
    let half : 2 ^ suc k / 2 ≡ 2 ^ k = omega (arith, pow-suc 2 k) in
    rw half (bit-pow k j ∙ ground arith)

pow-lt : (k w : ℕ) → k < w → 2 ^ k < 2 ^ w
pow-lt zero zero h = absurd (omega arith)
pow-lt zero (suc w) h = omega (arith, pow-suc 2 w, pow-zero 2, one-le-pow w 2 (omega arith))
pow-lt (suc k) zero h = absurd (omega arith)
pow-lt (suc k) (suc w) h = omega (arith, pow-suc 2 w, pow-suc 2 k, pow-lt k w (omega arith))

bit-ones : (w j : ℕ) → j < w → bit (2 ^ w - 1) j ≡ 1
unfolding bit
bit-ones zero j h = absurd (omega arith)
bit-ones (suc w) zero h = omega (arith, pow-suc 2 w, one-le-pow w 2 (omega arith))
bit-ones (suc w) (suc j) h =
    let half : (2 ^ suc w - 1) / 2 ≡ 2 ^ w - 1 =
      omega (arith, pow-suc 2 w, one-le-pow w 2 (omega arith)) in
    rw half (bit-ones w j (omega arith))

bit-mask : (w k j : ℕ) → k < w → j < w → bit (2 ^ w - 1 - 2 ^ k) j ≡ (if j == k then 0 else 1)
unfolding bit
bit-mask zero k j hk hj = absurd (omega arith)
bit-mask (suc w) zero zero hk hj = omega (arith, pow-suc 2 w, one-le-pow w 2 (omega arith))
bit-mask (suc w) zero (suc j) hk hj =
    let half : (2 ^ suc w - 1 - 2 ^ zero) / 2 ≡ 2 ^ w - 1 =
      omega (arith, pow-suc 2 w, pow-zero 2, one-le-pow w 2 (omega arith)) in
    rw half (bit-ones w j (omega arith) ∙ ground arith)
bit-mask (suc w) (suc k) zero hk hj =
    ground (arith, pow-suc 2 w, pow-suc 2 k, pow-lt k w (omega arith))
bit-mask (suc w) (suc k) (suc j) hk hj =
    let half : (2 ^ suc w - 1 - 2 ^ suc k) / 2 ≡ 2 ^ w - 1 - 2 ^ k =
      omega (arith, pow-suc 2 w, pow-suc 2 k, pow-lt k w (omega arith)) in
    rw half (bit-mask w k j (omega arith) (omega arith) ∙ ground arith)

pub bit-set_bit : (x k j : ℕ) → bit (set_bit x k) j ≡ (if j == k then 1 else bit x j)
unfolding set_bit
bit-set_bit x k j = ground (arith, bit-bit_or x (2 ^ k) j, bit-pow k j, bit_lt x j)

pub bit-clear_bit :
    (x k j : ℕ) → k < 32 → j < 32 → bit (clear_bit x k) j ≡ (if j == k then 0 else bit x j)
unfolding clear_bit
bit-clear_bit x k j hk hj =
    ground (arith, bit-bit_and x (word - 1 - 2 ^ k) j, bit-mask 32 k j hk hj, bit_lt x j)
