-- ===== src/Gpio.antt =====
-- gpio/gpio.c: the lines of the board and its error light. The three registers are words of 32 bits in
-- the memory of the chip, which is mapped through /dev/mem; atoi is a parameter.
pub mod Bits
pub mod Lines
use Prim.Native.Nat.{bit_and, bit_or}
use monoimage.Prelude.{
  ℕ, zero, suc, ◌+◌, ◌-◌, ◌^◌, Bool, true, false, List, [], ◌∷◌, ltb, if◌then◌else◌, Bytes, codes,
  get_or,
}
use monoimage.CStr.{strncmp_eq}

abbrev pub word : ℕ
word = 2 ^ 32

-- An int.
pub data ℤ : Type 0 where
  pos : ℕ → ℤ
  negsuc : ℕ → ℤ

-- `function`, `direction` and the word at MMCR_PIODATA15_0
pub record Registers : Type 0 where
  pub function : ℕ
  pub direction : ℕ
  pub values : ℕ

abbrev pub gpiolines : ℕ
gpiolines = 9

-- The PIO line for each GPIO line; the last one is the error light.
abbrev pub gpio : List ℕ
gpio = 5 ∷ 6 ∷ 7 ∷ 8 ∷ 21 ∷ 22 ∷ 11 ∷ 12 ∷ 9 ∷ []

abbrev pub pio : ℕ → ℕ
pio line = get_or gpio line 0

-- `x & ~(1 << k)` and `x | (1 << k)`
unfoldable pub clear_bit : (x k : ℕ) → ℕ
clear_bit x k = bit_and x (word - 1 - 2 ^ k)

unfoldable pub set_bit : (x k : ℕ) → ℕ
set_bit x k = bit_or x (2 ^ k)

-- The two loops over the lines.
unfoldable pub clear_lines : List ℕ → ℕ → ℕ
unfolding clear_bit
clear_lines [] x = x
clear_lines (k ∷ ks) x = clear_lines ks (clear_bit x k)

unfoldable pub set_lines : List ℕ → ℕ → ℕ
unfolding set_bit
set_lines [] x = x
set_lines (k ∷ ks) x = set_lines ks (set_bit x k)

unfoldable pub iosetup : Registers → Registers
unfolding clear_lines set_lines
iosetup r = record r {
  function = clear_lines gpio r.function;
  direction = set_lines gpio r.direction;
}

unfoldable pub setvalue : (line : ℕ) → (mode : Bool) → Registers → Registers
unfolding clear_bit set_bit
setvalue line true r = record r { values = set_bit r.values (pio line) }
setvalue line false r = record r { values = clear_bit r.values (pio line) }

-- How the program ends: with its usage, without the memory of the chip, or with the registers written.
pub data End : Type 0 where
  usage : End
  no_memory : End
  written : Registers → End

-- `arg` is on where it begins with on.
unfoldable pub set_line : (mapped : Bool) → ℤ → (arg : Bytes) → Registers → End
unfolding iosetup setvalue
set_line mapped (negsuc n) arg r = usage
set_line mapped (pos line) arg r =
    let done : End =
      if mapped
      then written (setvalue line (strncmp_eq arg (codes "on") 2) (iosetup r))
      else no_memory in
    if ltb (gpiolines - 1) line then usage else done

-- The arguments without the name of the program, and whether open and mmap succeed.
unfoldable pub main : (Bytes → ℤ) → (mapped : Bool) → (args : List Bytes) → Registers → End
unfolding set_line
main atoi mapped (line ∷ arg ∷ []) r = set_line mapped (atoi line) arg r
main atoi mapped args r = usage
