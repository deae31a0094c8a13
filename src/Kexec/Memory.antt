-- ===== src/Kexec/Memory.antt =====
-- kexec-tools/kexec/arch/i386/kexec-x86.c: `get_memory_ranges`, which reads the memory map in
-- /proc/iomem.
pub mod Lines
pub mod Bounds
use monoimage.Prelude.{
  ℕ, zero, suc, ◌+◌, ◌-◌, ◌*◌, ◌%◌, ◌/◌, ◌^◌, Bool, true, false, ◌&&◌, Option, none, some, List, [],
  ◌∷◌, ltb, leb, if◌then◌else◌, Bytes, codes, length, take, drop,
}
use monoimage.CStr.{has_prefix}
use monoimage.Cmdline.{fgets}
use monoimage.Kexec.{
  RangeType, ram, reserved, acpi, acpi_nvs, MemoryRange, no_memory_info, Outcome, returned, died,
}
use monoimage.Kexec.Range.{is_ram}

-- A line as sscanf with "%Lx-%Lx : %n" reads it: the two numbers, and the text behind them; `none`
-- where it finds fewer than two.
abbrev pub Scan : Type 0
Scan = Bytes → Option (ℕ × ℕ × Bytes)

abbrev pub max_memory_ranges : ℕ
max_memory_ranges = 64

-- `unsigned long long`
abbrev pub long_word : ℕ
long_word = 2 ^ 64

-- What the text behind the numbers names.
unfoldable pub type_of : Bytes → Option RangeType
type_of str =
    if has_prefix (codes "System RAM\n") str
    then some ram
    else if has_prefix (codes "reserved\n") str
    then some reserved
    else if has_prefix (codes "ACPI Tables\n") str
    then some acpi
    else if has_prefix (codes "ACPI Non-volatile Storage\n") str
    then some acpi_nvs
    else none

-- The interrupt table is not reported as RAM.
unfoldable pub above_table : RangeType → ℕ → ℕ
above_table ram start = if ltb start 256 then 256 else start
above_table _ start = start

-- What one line gives. `end + 1` is computed before the type is known.
unfoldable pub range_of : Scan → Bytes → Option MemoryRange
unfolding type_of above_table
range_of scan line = elim (scan line) [
  | none ↦ none
  | some (start, last, str) ↦ elim (type_of str) [
    | none ↦ none
    | some type ↦
        some (record { start = above_table type start; last = (last + 1) % long_word; type = type })
  ]
]

-- A line that gives no range is passed over.
unfoldable pub add_range :
    Option MemoryRange → (rest : ℕ → List MemoryRange) → (n : ℕ) → List MemoryRange
add_range none rest n = rest n
add_range (some r) rest n = r ∷ rest (suc n)

-- The loop, with `memory_ranges` as `n`.
unfoldable pub ranges_loop : (fuel : ℕ) → Scan → (text : Bytes) → (n : ℕ) → List MemoryRange
unfolding range_of add_range
ranges_loop zero scan text n = []
ranges_loop (suc fuel) scan [] n = []
ranges_loop (suc fuel) scan (b ∷ text) n =
    let line = fgets 160 (b ∷ text) in
    let rest = ranges_loop fuel scan (drop (length line) (b ∷ text)) in
    if leb max_memory_ranges n then [] else add_range (range_of scan line) rest n

-- `none` is the result -1, where /proc/iomem cannot be opened. Each line has at least one byte.
unfoldable pub get_memory_ranges : Scan → Option Bytes → Option (List MemoryRange)
unfolding ranges_loop
get_memory_ranges scan none = none
get_memory_ranges scan (some text) = some (ranges_loop (length text) scan text 0)
