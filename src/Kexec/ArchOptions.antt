-- ===== src/Kexec/ArchOptions.antt =====
-- kexec-tools/kexec/arch/i386/kexec-x86.c: `arch_process_options`, the options of the console.
pub mod Valid
use monoimage.Prelude.{
  ℕ, ◌+◌, ◌-◌, ◌%◌, ◌^◌, Bool, true, false, ◌||◌, not, List, [], ◌∷◌, ltb, ◌==◌, if◌then◌else◌,
  Bytes, codes, drop,
}
use monoimage.CStr.{strcmp_eq, has_prefix}
use monoimage.Kexec.{ulong_max}

-- One result of getopt_long.
pub data ArchOpt : Type 0 where
  reset_vga : ArchOpt
  console_vga : ArchOpt
  console_serial : ArchOpt
  serial : Bytes → ArchOpt
  serial_baud : Bytes → ArchOpt
  other : ArchOpt

-- `arch_options`
pub record ArchOptions : Type 0 where
  pub vga_reset : Bool
  pub base : ℕ
  pub baud : ℕ
  pub on_vga : Bool
  pub on_serial : Bool

abbrev pub default_options : ArchOptions
default_options = record {
  vga_reset = false;
  base = 1016;
  baud = 0;
  on_vga = false;
  on_serial = false;
}

-- strtoul in a base: the number, and the text behind it
abbrev pub Strtoul : Type 0
Strtoul = Bytes → ℕ → ℕ × Bytes

abbrev is_empty : Bytes → Bool
is_empty [] = true
is_empty (x ∷ s) = false

-- The port that the argument of --serial names, or ULONG_MAX.
unfoldable pub serial_port : Strtoul → Bytes → ℕ
serial_port strtoul arg =
    let (value, rest) = strtoul (drop 2 arg) 16 in
    if strcmp_eq arg (codes "ttyS0")
    then 1016
    else if strcmp_eq arg (codes "ttyS1")
    then 760
    else if has_prefix (codes "0x") arg
    then (if is_empty rest then value else ulong_max)
    else ulong_max

-- The results 0 and -1, and a division by zero.
pub data Processed : Type 0 where
  processed : ArchOptions → Processed
  bad_option : Processed
  crashed : Processed

unfoldable pub set_port : ℕ → ArchOptions → Processed
set_port value o = if ltb value 65536 then processed (record o { base = value }) else bad_option

-- `115200 % value` is computed before `value` is compared with 9600.
unfoldable pub set_baud : ℕ → (rest : Bytes) → ArchOptions → Processed
set_baud value rest o =
    if ltb 115200 value
    then bad_option
    else if value == 0
    then crashed
    else if not (115200 % value == 0)
    then bad_option
    else if ltb value 9600
    then bad_option
    else if is_empty rest
    then processed (record o { baud = value })
    else bad_option

unfoldable pub process_option : Strtoul → ArchOpt → ArchOptions → Processed
unfolding serial_port set_port set_baud
process_option strtoul reset_vga o = processed (record o { vga_reset = true })
process_option strtoul console_vga o = processed (record o { on_vga = true })
process_option strtoul console_serial o = processed (record o { on_serial = true })
process_option strtoul (serial arg) o = set_port (serial_port strtoul arg) o
process_option strtoul (serial_baud arg) o =
    let (value, rest) = strtoul arg 0 in set_baud value rest o
process_option strtoul other o = processed o

unfoldable pub arch_process_options : Strtoul → List ArchOpt → ArchOptions → Processed
unfolding process_option
arch_process_options strtoul [] o = processed o
arch_process_options strtoul (x ∷ xs) o = elim (process_option strtoul x o) [
  | processed o' ↦ arch_process_options strtoul xs o'
  | bad_option ↦ bad_option
  | crashed ↦ crashed
]

-- The symbols of the purgatory that `arch_update_purgatory` sets, and their values.
unfoldable pub arch_update_purgatory : ArchOptions → List (Bytes × ℕ)
arch_update_purgatory o =
    (codes "reset_vga", if o.vga_reset then 1 else 0)
    ∷ (codes "serial_base", o.base)
    ∷ (codes "serial_baud", o.baud)
    ∷ (codes "console_vga", if o.on_vga then 1 else 0)
    ∷ (codes "console_serial", if o.on_serial then 1 else 0)
    ∷ []
