-- ===== src/Gpio/Lines.antt =====
-- What the program does to the bits of the registers.
use monoimage.Prelude.{
  ℕ, zero, suc, ◌<◌, ◌≡◌, refl, ap, ◌∙◌, Bool, true, false, ◌||◌, List, [], ◌∷◌, ltb, ◌==◌,
  if◌then◌else◌, Bytes, codes, get_or, length, All, arith,
}
use monoimage.CStr.{strncmp_eq}
use monoimage.Gpio.{
  ℤ, pos, Registers, gpio, pio, clear_lines, set_lines, clear_bit, set_bit, iosetup, setvalue,
  written, set_line, main,
}
use monoimage.Gpio.Bits.{bit, bit-set_bit, bit-clear_bit}

abbrev pub is_line : (j : ℕ) → List ℕ → Bool
is_line j [] = false
is_line j (k ∷ ks) = j == k || is_line j ks

bit-set_lines :
    (ks : List ℕ) (x j : ℕ) → bit (set_lines ks x) j ≡ (if is_line j ks then 1 else bit x j)
unfolding set_lines
bit-set_lines [] x j = refl
bit-set_lines (k ∷ ks) x j = bit-set_lines ks (set_bit x k) j ∙ ground (arith, bit-set_bit x k j)

bit-clear_lines :
    (ks : List ℕ) (x j : ℕ)
    → All (λ k. k < 32) ks
    → j < 32
    → bit (clear_lines ks x) j ≡ (if is_line j ks then 0 else bit x j)
unfolding clear_lines
bit-clear_lines [] x j h hj = refl
bit-clear_lines (k ∷ ks) x j h hj =
    bit-clear_lines ks (clear_bit x k) j h.1 hj ∙ ground (arith, bit-clear_bit x k j h.0 hj)

gpio-small : All (λ k. k < 32) gpio
gpio-small = omega arith

-- Each bit of the three registers after the program.
pub record IsWritten (line : ℕ) (on : Bool) (r r' : Registers) : Type 0 where
  pub function :
      (j : ℕ) → j < 32 → bit r'.function j ≡ (if is_line j gpio then 0 else bit r.function j)
  pub direction :
      (j : ℕ) → j < 32 → bit r'.direction j ≡ (if is_line j gpio then 1 else bit r.direction j)
  pub values :
      (j : ℕ)
      → j < 32
      → bit r'.values j ≡ (if j == pio line then (if on then 1 else 0) else bit r.values j)

All-get_or {ℓ κ} :
    {A : Type ℓ} (P : A → Type κ) (xs : List A) (i : ℕ) (d : A)
    → All P xs
    → i < length xs
    → P (get_or xs i d)
All-get_or P [] i d h below = absurd (omega arith)
All-get_or P (x ∷ xs) zero d h below = h.0
All-get_or P (x ∷ xs) (suc i) d h below = All-get_or P xs i d h.1 (omega arith)

pio-small : (line : ℕ) → line < 9 → pio line < 32
pio-small line h = All-get_or (λ k. k < 32) gpio line 0 gpio-small (omega arith)

setvalue-values :
    (line : ℕ) (on : Bool) (r : Registers) (j : ℕ)
    → pio line < 32
    → j < 32
    → bit (setvalue line on r).values j
      ≡ (if j == pio line then (if on then 1 else 0) else bit r.values j)
unfolding setvalue
setvalue-values line true r j h hj = bit-set_bit r.values (pio line) j
setvalue-values line false r j h hj = bit-clear_bit r.values (pio line) j h hj

setvalue-others :
    (line : ℕ) (on : Bool) (r : Registers)
    → ((setvalue line on r).function ≡ r.function) × ((setvalue line on r).direction ≡ r.direction)
unfolding setvalue
setvalue-others line true r = (refl, refl)
setvalue-others line false r = (refl, refl)

setvalue-IsWritten :
    (line : ℕ) (on : Bool) (r : Registers)
    → line < 9
    → IsWritten line on r (setvalue line on (iosetup r))
unfolding iosetup
setvalue-IsWritten line on r small =
    let same = setvalue-others line on (iosetup r) in
    record {
      function = λ j hj. ap (λ x. bit x j) same.0 ∙ bit-clear_lines gpio r.function j gpio-small hj;
      direction = λ j hj. ap (λ x. bit x j) same.1 ∙ bit-set_lines gpio r.direction j;
      values = λ j hj. setvalue-values line on (iosetup r) j (pio-small line small) hj;
    }

-- `gpio LINE VALUE`, where LINE is a number from 0 to 8 and the memory of the chip can be mapped, makes
-- the nine lines outputs of the port, sets the bit of the line where the value begins with on and
-- clears it otherwise, and leaves every other bit of the three registers alone.
pub main-IsWritten :
    (atoi : Bytes → ℤ) (arg value : Bytes) (line : ℕ) (r : Registers)
    → atoi arg ≡ pos line
    → line < 9
    → (r' : Registers) × (main atoi true (arg ∷ value ∷ []) r ≡ written r')
      × IsWritten line (strncmp_eq value (codes "on") 2) r r'
unfolding main
main-IsWritten atoi arg value line r number small =
    let allowed : ltb 8 line ≡ false = ground arith in
    (
      setvalue line (strncmp_eq value (codes "on") 2) (iosetup r),
      rw (number, set_line, allowed) refl,
      setvalue-IsWritten line (strncmp_eq value (codes "on") 2) r small,
    )
