-- ===== src/Kexec/Memory/Bounds.antt =====
-- The number of ranges, and where they begin.
use monoimage.Prelude.{
  ℕ, zero, suc, ◌+◌, ◌%◌, ◌≤◌, ◌<◌, ◌≡◌, refl, true, Option, none, some, List, [], ◌∷◌, leb, Bytes,
  length, drop, All, arith, Bool-cases, Option-cases, inl, inr,
}
use monoimage.Cmdline.{fgets}
use monoimage.Kexec.{RangeType, ram, reserved, acpi, acpi_nvs, MemoryRange}
use monoimage.Kexec.Range.{is_ram}
use monoimage.Kexec.Memory.{
  Scan, max_memory_ranges, long_word, type_of, above_table, range_of, add_range, ranges_loop,
  get_memory_ranges,
}

-- RAM begins behind the interrupt table, and the end is a number of 64 bits.
abbrev pub IsBounded : MemoryRange → Type 0
IsBounded r = (is_ram r.type ≡ true → 256 ≤ r.start) × (r.last < long_word)

above_table_bounds :
    (type : RangeType) (start : ℕ) → is_ram type ≡ true → 256 ≤ above_table type start
unfolding above_table is_ram
above_table_bounds ram start h = ground arith
above_table_bounds reserved start h = absurd (ground (arith, h))
above_table_bounds acpi start h = absurd (ground (arith, h))
above_table_bounds acpi_nvs start h = absurd (ground (arith, h))

range_of-IsBounded :
    (scan : Scan) (line : Bytes) (r : MemoryRange) → range_of scan line ≡ some r → IsBounded r
unfolding range_of
range_of-IsBounded scan line r h = elim (Option-cases (scan line)) [
  | inl e ↦ absurd (ground (arith, h, e))
  | inr ((start, last, str), e) ↦ elim (Option-cases (type_of str)) [
    | inl g ↦ absurd (ground (arith, h, e, g))
    | inr (type, g) ↦
        let made : record {
          start = above_table type start;
          last = (last + 1) % long_word;
          type = type;
        }
            ≡ r =
          ground (arith, h, e, g) in
        rw (← made) (above_table_bounds type start, omega arith)
  ]
]

-- With `n` ranges in front.
abbrev AreBounded : ℕ → List MemoryRange → Type 0
AreBounded n rs = (n + length rs ≤ max_memory_ranges) × All IsBounded rs

add_range-AreBounded :
    (o : Option MemoryRange) (rest : ℕ → List MemoryRange) (n : ℕ)
    → n < max_memory_ranges
    → ((r : MemoryRange) → o ≡ some r → IsBounded r)
    → ((m : ℕ) → m ≤ max_memory_ranges → AreBounded m (rest m))
    → AreBounded n (add_range o rest n)
unfolding add_range
add_range-AreBounded none rest n below one later = later n (omega arith)
add_range-AreBounded (some r) rest n below one later =
    let (size, all) = later (suc n) below in (omega (arith, size), (one r refl, all))

ranges_loop-AreBounded :
    (fuel : ℕ) (scan : Scan) (text : Bytes) (n : ℕ)
    → n ≤ max_memory_ranges
    → AreBounded n (ranges_loop fuel scan text n)
unfolding ranges_loop
ranges_loop-AreBounded zero scan text n h = (omega (arith, h), tt)
ranges_loop-AreBounded (suc fuel) scan [] n h = (omega (arith, h), tt)
ranges_loop-AreBounded (suc fuel) scan (b ∷ text) n h =
    let line = fgets 160 (b ∷ text) in
    let more = drop (length (fgets 160 (b ∷ text))) (b ∷ text) in
    elim (Bool-cases (leb max_memory_ranges n)) [
      | inl e ↦ rw e (omega (arith, h), tt)
      | inr e ↦ rw e (
          add_range-AreBounded (range_of scan line) (ranges_loop fuel scan more) n
            (ground (arith, e)) (range_of-IsBounded scan line)
            (λ m. ranges_loop-AreBounded fuel scan more m))
    ]

-- Whatever /proc/iomem holds, `get_memory_ranges` writes at most the 64 ranges that its array has
-- room for, no range of RAM begins in the interrupt table, and every end is a number of 64 bits.
pub get_memory_ranges_bounds :
    (scan : Scan) (text : Bytes)
    → (rs : List MemoryRange) × (get_memory_ranges scan (some text) ≡ some rs)
      × (length rs ≤ max_memory_ranges)
      × All IsBounded rs
unfolding get_memory_ranges
get_memory_ranges_bounds scan text =
    let (size, all) = ranges_loop-AreBounded (length text) scan text 0 (omega arith) in
    (ranges_loop (length text) scan text 0, refl, omega (arith, size), all)
