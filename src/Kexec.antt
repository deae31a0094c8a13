-- ===== src/Kexec.antt =====
-- kexec-tools/kexec/kexec.h: the memory map and the segments of the kernel to load, which the
-- modules below work on. The words are those of the i386 build: `unsigned long`, `size_t` and
-- pointers have 32 bits, `unsigned long long` has 64.
pub mod Range
pub mod Sort
pub mod Hole
pub mod Add
pub mod Slurp
pub mod Load
pub mod ArchOptions
pub mod Main
pub mod Memory
pub mod Setup
pub mod BzImage
pub mod Purgatory
pub mod Elf
pub mod Checksum
use monoimage.Prelude.{ℕ, ◌^◌, ◌-◌, List, ◌≡◌, refl, ◌⊎◌, inl, inr}

-- ULONG_MAX + 1
abbrev pub word : ℕ
word = 2 ^ 32

abbrev pub ulong_max : ℕ
ulong_max = word - 1

-- RANGE_RAM, RANGE_RESERVED, RANGE_ACPI, RANGE_ACPI_NVS
pub data RangeType : Type 0 where
  ram : RangeType
  reserved : RangeType
  acpi : RangeType
  acpi_nvs : RangeType

-- `struct memory_range`; `last` is the source's `end`, which kexec.c takes for the last byte of the
-- range, and kexec-x86.c writes as the byte behind it.
pub record MemoryRange : Type 0 where
  pub start : ℕ
  pub last : ℕ
  pub type : RangeType

-- `struct kexec_segment`; `buf` is the address of the bytes to copy.
pub record KexecSegment : Type 0 where
  pub buf : ℕ
  pub bufsz : ℕ
  pub mem : ℕ
  pub memsz : ℕ

-- `struct kexec_info`, with `nr_segments` as the length of `segment`. `rhdr` is not used here.
pub record KexecInfo : Type 0 where
  pub segment : List KexecSegment
  pub entry : ℕ

-- `mem_min`, `mem_max`, and `memory_range` with `memory_ranges` as its length. The page size is
-- what `getpagesize()` returns.
pub record Machine : Type 0 where
  pub mem_min : ℕ
  pub mem_max : ℕ
  pub memory_range : List MemoryRange
  pub page_size : ℕ

-- The calls of `die`, by the message that they print; and the one way in which the result is undefined,
-- `mem_range_overrun`, where `locate_hole` writes behind the end of its array.
pub data Die : Type 0 where
  invalid_hole_end : Die
  mem_range_overrun : Die
  not_page_aligned : Die
  invalid_segment : Die
  sort_segments_failed : Die
  locate_hole_failed : Die
  cannot_open : Die
  read_failed : Die
  close_failed : Die
  no_memory_info : Die
  setup_too_high : Die
  note_not_terminated : Die
  elf_exec_parse_failed : Die
  elf_exec_load_failed : Die
  args_none_on_other : Die
  ramdisk_with_notes : Die

-- A function returns, or the program exits through `die`, or it has overrun the array.
pub data Outcome {ℓ} (A : Type ℓ) : Type ℓ where
  returned : A → Outcome A
  died : Die → Outcome A

pub Outcome-cases {ℓ} :
    {A : Type ℓ} (o : Outcome A) → ((a : A) × (o ≡ returned a)) ⊎ ((d : Die) × (o ≡ died d))
Outcome-cases (returned a) = inl (a, refl)
Outcome-cases (died d) = inr (d, refl)
