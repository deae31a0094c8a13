-- ===== src/Kexec/Hole.antt =====
-- kexec-tools/kexec/kexec.c: `locate_hole`. Its first loop merges the sorted memory ranges with the
-- sorted segments into the free ranges; its second loop chooses a place in one of these.
pub mod Free
pub mod Place
pub mod Locate
pub mod Room
use Prim.Native.Nat.{bit_and}
use monoimage.Prelude.{
  ℕ, ◌+◌, ◌-◌, ◌%◌, ◌||◌, Option, none, some, List, [], ◌∷◌, ◌++◌, ltb, leb, ◌==◌, if◌then◌else◌,
  length,
}
use monoimage.Kexec.{
  word, ulong_max, ram, MemoryRange, KexecSegment, KexecInfo, Machine, invalid_hole_end,
  mem_range_overrun, Outcome, returned, died,
}
use monoimage.Kexec.Range.{is_ram}

-- The sign of the argument `hole_end`: 0, positive, negative.
pub data HoleEnd : Type 0 where
  no_end : HoleEnd
  lowest : HoleEnd
  highest : HoleEnd

abbrev pub free_range : ℕ → ℕ → MemoryRange
free_range first last = record { start = first; last = last; type = ram }

-- What is written to `mem_range` before a segment, and after the last one.
unfoldable pub gap_before : ℕ → ℕ → List MemoryRange
gap_before mstart sstart = if ltb mstart sstart then free_range mstart (sstart - 1) ∷ [] else []

unfoldable pub gap_after : ℕ → ℕ → List MemoryRange
gap_after mstart mend = if leb mstart mend then free_range mstart mend ∷ [] else []

-- The loop over `j` for one memory range: the free ranges, and the segments that are left.
unfoldable pub carve : ℕ → ℕ → List KexecSegment → List MemoryRange × List KexecSegment
unfolding gap_before gap_after
carve mstart mend [] = (gap_after mstart mend, [])
carve mstart mend (s ∷ rest) =
    let send = (s.mem + s.memsz + word - 1) % word in
    let (free, left) = carve ((send + 1) % word) mend rest in
    if leb s.mem mend
    then (gap_before mstart s.mem ++ free, left)
    else (gap_after mstart mend, s ∷ rest)

-- The loop over `i`.
unfoldable pub free_ranges : List MemoryRange → List KexecSegment → List MemoryRange
unfolding is_ram carve
free_ranges [] segments = []
free_ranges (r ∷ rest) segments =
    let carved = carve (r.start % word) (r.last % word) segments in
    let skipped = free_ranges rest segments in
    let used = carved.0 ++ free_ranges rest carved.1 in if is_ram r.type then used else skipped

-- What the caller asks of the hole.
pub record Request : Type 0 where
  pub size : ℕ
  pub align : ℕ
  pub least : ℕ
  pub most : ℕ

-- `hole_align`, at least 1 and at least a page
unfoldable pub sane_align : Machine → ℕ → ℕ
sane_align m align =
    let a = if align == 0 then 1 else align in if ltb a m.page_size then m.page_size else a

-- `x & ~(a - 1)`, with the mask computed in an `unsigned long`
unfoldable pub mask_down : ℕ → ℕ → ℕ
mask_down a x = bit_and x (word - a)

-- `start` and `end` of the second loop, before the alignment.
unfoldable pub clip_start : Machine → Request → MemoryRange → ℕ
clip_start m q r =
    let start = if ltb r.start m.mem_min then m.mem_min else r.start in
    if ltb start q.least then q.least else start

unfoldable pub clip_end : Machine → Request → MemoryRange → ℕ
clip_end m q r =
    let last = if ltb m.mem_max r.last then m.mem_max else r.last in
    if ltb q.most last then q.most else last

-- The body of the second loop: the base of the hole in this free range, if it is large enough.
unfoldable pub candidate : Machine → Request → HoleEnd → MemoryRange → Option ℕ
candidate m q e r =
    let first = mask_down q.align (clip_start m q r + q.align - 1) in
    let last = clip_end m q r in
    if leb last first || leb m.mem_max first || leb last m.mem_min
    then none
    else if leb q.size (last - first)
    then some (elim e [ highest ↦ mask_down q.align (last - q.size) | _ ↦ first ])
    else none

-- The second loop, with the `break` at the first place for a hole at the lowest address.
unfoldable pub place : Machine → Request → HoleEnd → List MemoryRange → ℕ → ℕ
unfolding candidate
place m q e [] hole_base = hole_base
place m q e (r ∷ rest) hole_base = elim (candidate m q e r) [
  | none ↦ place m q e rest hole_base
  | some base ↦ elim e [ highest ↦ place m q e rest base | _ ↦ base ]
]

-- The number of entries that are allocated for `mem_range`; no write looks at it.
unfoldable pub max_mem_ranges : Machine → KexecInfo → ℕ
max_mem_ranges m info = length m.memory_range + length info.segment - 1

-- The second loop, and the tests of its result; `ulong_max` is the failure that the source returns.
unfoldable pub hole_in : Machine → Request → HoleEnd → (mem_range : List MemoryRange) → Outcome ℕ
unfolding sane_align place
hole_in m q e mem_range =
    let aligned = record q { align = sane_align m q.align } in
    let base = place m aligned e mem_range ulong_max in
    if base == ulong_max
    then returned ulong_max
    else if ltb q.most ((base + q.size) % word)
    then returned ulong_max
    else returned base

unfoldable pub locate_hole : Machine → KexecInfo → Request → HoleEnd → Outcome ℕ
unfolding free_ranges max_mem_ranges hole_in
locate_hole m info q no_end = died invalid_hole_end
locate_hole m info q e =
    let free = free_ranges m.memory_range info.segment in
    if ltb (max_mem_ranges m info) (length free) then died mem_range_overrun else hole_in m q e free
