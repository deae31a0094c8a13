-- ===== src/Kexec/Hole/Room.antt =====
-- When the array `mem_range` of `locate_hole` is large enough.
use monoimage.Prelude.{
  ℕ, ◌+◌, ◌-◌, ◌%◌, ◌≤◌, ◌<◌, ◌≡◌, ◌≢◌, true, false, List, [], ◌∷◌, inl, inr, arith, Bool-cases,
  leb, ltb, length, length-append, if◌then◌else◌, refl, All,
}
use monoimage.Kexec.{word, MemoryRange, KexecSegment, KexecInfo, Machine, mem_range_overrun, died}
use monoimage.Kexec.Range.{is_ram}
use monoimage.Kexec.Hole.{
  HoleEnd, no_end, lowest, highest, Request, gap_before, gap_after, carve, free_ranges,
  max_mem_ranges, hole_in, locate_hole,
}

-- How many ranges of the memory map are RAM?
abbrev pub ram_count : List MemoryRange → ℕ
ram_count [] = 0
ram_count (r ∷ rest) = if is_ram r.type then 1 + ram_count rest else ram_count rest

length-gap_after : (a b : ℕ) → length (gap_after a b) ≤ 1
unfolding gap_after
length-gap_after a b = ground arith

length-gap_before : (a b : ℕ) → length (gap_before a b) ≤ 1
unfolding gap_before
length-gap_before a b = ground arith

-- One range gives at most one free range more than it uses segments.
length-carve :
    (a b : ℕ) (segments : List KexecSegment)
    → length (carve a b segments).0 + length (carve a b segments).1 ≤ 1 + length segments
unfolding carve
length-carve a b [] = omega (arith, length-gap_after a b)
length-carve a b (s ∷ rest) =
    let next = ((s.mem + s.memsz + word - 1) % word + 1) % word in
    elim (Bool-cases (leb s.mem b)) [
      | inl e ↦ rw e (
          omega (
            arith,
            length-carve next b rest,
            length-gap_before a s.mem,
            length-append (gap_before a s.mem) (carve next b rest).0,
          ))
      | inr e ↦ rw e (omega (arith, length-gap_after a b))
    ]

length-free_ranges :
    (rs : List MemoryRange) (segments : List KexecSegment)
    → length (free_ranges rs segments) ≤ ram_count rs + length segments
unfolding free_ranges
length-free_ranges [] segments = omega arith
length-free_ranges (r ∷ rest) segments =
    let carved = carve (r.start % word) (r.last % word) segments in
    elim (Bool-cases (is_ram r.type)) [
      | inl e ↦
          let counted : ram_count (r ∷ rest) ≡ 1 + ram_count rest = rw e refl in
          rw e (
            omega (
              arith,
              counted,
              length-carve (r.start % word) (r.last % word) segments,
              length-free_ranges rest carved.1,
              length-append carved.0 (free_ranges rest carved.1),
            ))
      | inr e ↦
          let counted : ram_count (r ∷ rest) ≡ ram_count rest = rw e refl in
          rw e (omega (arith, counted, length-free_ranges rest segments))
    ]

hole_in-ne-overrun :
    (m : Machine) (q : Request) (e : HoleEnd) (free : List MemoryRange)
    → hole_in m q e free ≢ died mem_range_overrun
unfolding hole_in
hole_in-ne-overrun m q e free h = ground arith

-- `locate_hole` does not write behind the end of its array where a range of the memory map is not RAM,
-- whatever the segments and the request.
pub locate_hole-in_array :
    (m : Machine) (info : KexecInfo) (q : Request) (e : HoleEnd)
    → ram_count m.memory_range < length m.memory_range
    → locate_hole m info q e ≢ died mem_range_overrun
unfolding locate_hole max_mem_ranges
locate_hole-in_array m info q no_end h o = ground arith
locate_hole-in_array m info q lowest h o =
    let free = free_ranges m.memory_range info.segment in
    let fits : ltb (length m.memory_range + length info.segment - 1) (length free) ≡ false =
      ground (arith, h, length-free_ranges m.memory_range info.segment) in
    hole_in-ne-overrun m q lowest free (rw fits at o)
locate_hole-in_array m info q highest h o =
    let free = free_ranges m.memory_range info.segment in
    let fits : ltb (length m.memory_range + length info.segment - 1) (length free) ≡ false =
      ground (arith, h, length-free_ranges m.memory_range info.segment) in
    hole_in-ne-overrun m q highest free (rw fits at o)

-- A range of RAM that is not empty, as kexec reads it.
abbrev pub IsFull : MemoryRange → Type 0
IsFull r = (is_ram r.type ≡ true) × (r.start % word ≤ r.last % word)

length-free_ranges_full :
    (rs : List MemoryRange) → All IsFull rs → length (free_ranges rs []) ≡ length rs
unfolding free_ranges carve gap_after
length-free_ranges_full [] full = refl
length-free_ranges_full (r ∷ rest) full =
    let (is_usable, ordered) = full.0 in
    let one : leb (r.start % word) (r.last % word) ≡ true = ground (arith, ordered) in
    rw (is_usable, one) (omega (arith, length-free_ranges_full rest full.1))

-- Before there is a segment, `locate_hole` writes behind the end of its array for every memory map that
-- holds nothing but ranges of RAM that are not empty as kexec reads them, and at least one of these.
pub locate_hole-overruns :
    (m : Machine) (entry : ℕ) (q : Request) (e : HoleEnd)
    → All IsFull m.memory_range
    → 0 < length m.memory_range
    → e ≢ no_end
    → locate_hole m (record { segment = []; entry = entry }) q e ≡ died mem_range_overrun
unfolding locate_hole max_mem_ranges
locate_hole-overruns m entry q no_end full some_ram other = absurd (other refl)
locate_hole-overruns m entry q lowest full some_ram other =
    let long : ltb (length m.memory_range + 0 - 1) (length (free_ranges m.memory_range [])) ≡ true =
      ground (arith, some_ram, length-free_ranges_full m.memory_range full) in
    rw long refl
locate_hole-overruns m entry q highest full some_ram other =
    let long : ltb (length m.memory_range + 0 - 1) (length (free_ranges m.memory_range [])) ≡ true =
      ground (arith, some_ram, length-free_ranges_full m.memory_range full) in
    rw long refl
