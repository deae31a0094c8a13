-- ===== src/Kexec/Setup/Map.antt =====
-- The memory map of the new kernel.
use monoimage.Prelude.{
  ℕ, ◌+◌, ◌-◌, ◌%◌, ◌/◌, ◌^◌, ◌≤◌, ◌<◌, ◌≡◌, ◌⊎◌, ◌↔◌, refl, inl, inr, ap, sym, ◌∙◌, suc, zero,
  ◌++◌, ltb→le, true, false, some, List, [], ◌∷◌, ltb, leb, if◌then◌else◌, length, take, All, arith,
  Bool-cases, min, length-take,
}
use monoimage.Kexec.{RangeType, ram, reserved, acpi, acpi_nvs, MemoryRange, returned}
use monoimage.Kexec.Range.{is_ram}
use monoimage.Kexec.Memory.{long_word}
use monoimage.Kexec.Setup.{
  E820Entry, e820_type, e820_entry, MemSize, note_size, SystemMap, setup_loop, setup_memory,
  e820max,
}

-- The byte `x` has the type in the memory map, whose ends are exclusive, and in the new kernel's map.
abbrev pub Has : RangeType → ℕ → List MemoryRange → Type 0
Has t x [] = ⊥
Has t x (r ∷ rs) = ((r.type ≡ t) × (r.start ≤ x) × (x < r.last)) ⊎ Has t x rs

-- The type codes of the BIOS interface: 1 is RAM, 2 reserved, 3 ACPI data, 4 ACPI non-volatile storage.
abbrev pub bios_code : RangeType → ℕ
bios_code ram = 1
bios_code reserved = 2
bios_code acpi = 3
bios_code acpi_nvs = 4

-- The byte `x` lies in an entry whose type code is that of the BIOS interface for the type.
abbrev pub E820Has : RangeType → ℕ → List E820Entry → Type 0
E820Has t x [] = ⊥
E820Has t x (e ∷ es) =
    ((e.type ≡ bios_code t) × (e.addr ≤ x) × (x < e.addr + e.size)) ⊎ E820Has t x es

abbrev pub IsRange : MemoryRange → Type 0
IsRange r = (r.start ≤ r.last) × (r.last < long_word)

e820_type-bios_code : (t : RangeType) → e820_type t ≡ bios_code t
unfolding e820_type
e820_type-bios_code ram = refl
e820_type-bios_code reserved = refl
e820_type-bios_code acpi = refl
e820_type-bios_code acpi_nvs = refl

bios_code_injective : (s t : RangeType) → bios_code s ≡ bios_code t → s ≡ t
bios_code_injective ram ram h = refl
bios_code_injective reserved reserved h = refl
bios_code_injective acpi acpi h = refl
bios_code_injective acpi_nvs acpi_nvs h = refl
bios_code_injective s t h = absurd (omega (arith, h))

e820_entry-size : (r : MemoryRange) → IsRange r → (e820_entry r).size ≡ r.last - r.start
unfolding e820_entry
e820_entry-size r h = omega (arith, h)

entry_iff :
    (r : MemoryRange) (t : RangeType) (x : ℕ)
    → IsRange r
    → ((r.type ≡ t) × (r.start ≤ x) × (x < r.last)) ↔ (
        ((e820_entry r).type ≡ bios_code t)
        × ((e820_entry r).addr ≤ x)
        × (x < (e820_entry r).addr + (e820_entry r).size))
unfolding e820_entry
entry_iff r t x h =
    let size = e820_entry-size r h in
    (
      (λ a. (e820_type-bios_code r.type ∙ ap bios_code a.0, a.1, omega (arith, size, a.1, a.2))),
      λ b. (
        bios_code_injective r.type t (sym (e820_type-bios_code r.type) ∙ b.0),
        b.1,
        omega (arith, size, b.1, b.2),
      ),
    )

sum_iff : {A B C D : Type 0} → A ↔ B → C ↔ D → (A ⊎ C) ↔ (B ⊎ D)
sum_iff f g = (
  (λ s. elim s [ inl a ↦ inl (f.0 a) | inr c ↦ inr (g.0 c) ]),
  λ s. elim s [ inl b ↦ inl (f.1 b) | inr d ↦ inr (g.1 d) ],
)

setup_loop-Has :
    (rs : List MemoryRange) (s : MemSize) (t : RangeType) (x : ℕ)
    → All IsRange rs
    → Has t x rs ↔ E820Has t x (setup_loop rs s).e820_map
unfolding setup_loop
setup_loop-Has [] s t x h = (λ a. a, λ a. a)
setup_loop-Has (r ∷ rs) s t x h =
    sum_iff (entry_iff r t x h.0) (setup_loop-Has rs (note_size r s) t x h.1)

setup_loop-length :
    (rs : List MemoryRange) (s : MemSize) → length (setup_loop rs s).e820_map ≡ length rs
unfolding setup_loop
setup_loop-length [] s = refl
setup_loop-length (r ∷ rs) s = ap suc (setup_loop-length rs (note_size r s))

take-all : (n : ℕ) (rs : List MemoryRange) → length rs ≤ n → take n rs ≡ rs
take-all zero [] h = refl
take-all (suc n) [] h = refl
take-all zero (r ∷ rs) h = absurd (omega (arith, h))
take-all (suc n) (r ∷ rs) h = ap (◌∷◌ r) (take-all n rs (omega (arith, h)))

cut-take :
    (rs : List MemoryRange)
    → (if ltb e820max (length rs) then take e820max rs else rs) ≡ take e820max rs
cut-take rs = elim (Bool-cases (ltb e820max (length rs))) [
  | inl e ↦ rw e refl
  | inr e ↦ rw e (sym (take-all e820max rs (ltb→le e820max (length rs) e)))
]

All-take : (P : MemoryRange → Type 0) (n : ℕ) (rs : List MemoryRange) → All P rs → All P (take n rs)
All-take P zero rs h = tt
All-take P (suc n) [] h = tt
All-take P (suc n) (r ∷ rs) h = (h.0, All-take P n rs h.1)

setup_ranges-Has :
    (rs ranges : List MemoryRange) (s : MemSize)
    → ranges ≡ take e820max rs
    → All IsRange rs
    → (t : RangeType) (x : ℕ)
    → Has t x (take e820max rs) ↔ E820Has t x (setup_loop ranges s).e820_map
setup_ranges-Has rs ranges s same h t x =
    rw same (setup_loop-Has (take e820max rs) s t x (All-take IsRange e820max rs h))

-- For a memory map with a range in it the program does not exit, and the new kernel's map says of
-- every byte and each type of memory, by the type codes of the BIOS interface, what the first 32 ranges
-- of the memory map say; it has as many entries. Each range must start at or before its end, which is
-- below 2^64.
pub setup_memory-Has :
    (r : MemoryRange) (rs : List MemoryRange)
    → All IsRange (r ∷ rs)
    → (m : SystemMap) × (setup_memory (some (r ∷ rs)) ≡ returned m)
      × (length m.e820_map ≡ min e820max (length (r ∷ rs)))
      × ((t : RangeType) (x : ℕ) → Has t x (take e820max (r ∷ rs)) ↔ E820Has t x m.e820_map)
unfolding setup_memory
setup_memory-Has r rs h =
    let start : MemSize = record { ext_mem_k = 0; alt_mem_k = 0 } in
    let same = cut-take (r ∷ rs) in
    let ranges = if ltb e820max (length (r ∷ rs)) then take e820max (r ∷ rs) else r ∷ rs in
    (
      setup_loop ranges start,
      refl,
      setup_loop-length ranges start ∙ ap length same ∙ length-take e820max (r ∷ rs),
      setup_ranges-Has (r ∷ rs) ranges start same h,
    )

setup_loop-keeps :
    (rs : List MemoryRange) (s : MemSize)
    → All (λ o. 1048576 < o.start) rs
    → (setup_loop rs s).mem_size ≡ s
unfolding setup_loop note_size
setup_loop-keeps [] s h = refl
setup_loop-keeps (r ∷ rs) s h =
    let above : leb r.start 1048576 ≡ false = ground (arith, h.0) in
    let same : note_size r s ≡ s = ground (arith, above) in
    setup_loop-keeps rs (note_size r s) h.1 ∙ same

note_size-wraps :
    (r : MemoryRange) (s : MemSize)
    → is_ram r.type ≡ true
    → r.start ≤ 1048576
    → 1048576 < r.last
    → r.last < 2 ^ 30
    → note_size r s ≡ record { ext_mem_k = 64512; alt_mem_k = 4294967295 }
unfolding note_size
note_size-wraps r s e a b c =
    let wraps : 4294967295 < (r.last / 1024 + long_word - 1048576) % long_word = omega (arith, c) in
    ground (arith, e, a, b, wraps)

-- Where RAM starts at or below 1M and ends between there and 1G, and is the last such range, the new
-- kernel is told of 64512K in the one place and of 4294967295K in the other, whatever there is.
setup_loop-wraps :
    (before : List MemoryRange) (r : MemoryRange) (after : List MemoryRange) (s : MemSize)
    → is_ram r.type ≡ true
    → r.start ≤ 1048576
    → 1048576 < r.last
    → r.last < 2 ^ 30
    → All (λ o. 1048576 < o.start) after
    → (setup_loop (before ++ r ∷ after) s).mem_size
      ≡ record { ext_mem_k = 64512; alt_mem_k = 4294967295 }
unfolding setup_loop
setup_loop-wraps (o ∷ before) r after s e a b c h =
    setup_loop-wraps before r after (note_size o s) e a b c h
setup_loop-wraps [] r after s e a b c h =
    setup_loop-keeps after (note_size r s) h ∙ note_size-wraps r s e a b c
