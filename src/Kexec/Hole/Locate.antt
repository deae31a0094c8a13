-- ===== src/Kexec/Hole/Locate.antt =====
-- What `locate_hole` promises to its callers.
use monoimage.Prelude.{ℕ, ◌+◌, ◌≤◌, ◌<◌, ◌≡◌, ◌≢◌, inl, inr, ◌∙◌, arith, All, List, length}
use monoimage.Kexec.{word, ulong_max, MemoryRange, KexecInfo, Machine, returned}
use monoimage.Kexec.Range.{IsLow}
use monoimage.Kexec.Sort.Laws.{IsApart}
use monoimage.Kexec.Hole.{
  HoleEnd, no_end, lowest, highest, Request, sane_align, free_ranges, place, max_mem_ranges,
  hole_in, locate_hole,
}
use monoimage.Kexec.Hole.Free.{IsAscending, IsPlaced, IsFree, free_ranges-IsFree}
use monoimage.Kexec.Hole.Place.{IsHole, IsRoundable, EndsLow, InCutRam-EndsLow, place-Placed}

-- The request as the loops see it.
abbrev pub with_sane_align : Machine → Request → Request
with_sane_align m q = record q { align = sane_align m q.align }

-- What the machine and the request must be like: a memory map whose ranges of RAM are in order and end
-- below 4G by more than the alignment, which is a power of two.
pub record IsServable (m : Machine) (q : Request) : Type 0 where
  pub low : All IsLow m.memory_range
  pub ascending : IsAscending m.memory_range
  pub ends_low : EndsLow (sane_align m q.align) m.memory_range
  pub roundable : IsRoundable m (with_sane_align m q)

-- The result is a hole in a range of RAM that is clear of every segment.
abbrev pub IsLocated : Machine → KexecInfo → Request → ℕ → Type 0
IsLocated m info q base =
    (r : MemoryRange) × IsFree m.memory_range info.segment r × IsHole m (with_sane_align m q) r base

hole_in-returned :
    (m : Machine) (q : Request) (e : HoleEnd) (free : List MemoryRange) (b : ℕ)
    → hole_in m q e free ≡ returned b
    → b ≢ ulong_max
    → b ≡ place m (with_sane_align m q) e free ulong_max
unfolding hole_in
hole_in-returned m q e free b h ne = ground arith

-- Where there is a result, the free ranges fit the array.
pub locate_hole-hole_in :
    (m : Machine) (info : KexecInfo) (q : Request) (e : HoleEnd) (b : ℕ)
    → locate_hole m info q e ≡ returned b
    → (hole_in m q e (free_ranges m.memory_range info.segment) ≡ returned b)
      × (length (free_ranges m.memory_range info.segment) ≤ max_mem_ranges m info)
unfolding locate_hole
locate_hole-hole_in m info q no_end b h = absurd (ground arith)
locate_hole-hole_in m info q lowest b h = (ground arith, ground arith)
locate_hole-hole_in m info q highest b h = (ground arith, ground arith)

-- Where `locate_hole` returns an address other than ULONG_MAX, it is the base of a hole of the size
-- that was asked for: a multiple of the alignment, between the bounds of the machine and of the
-- caller, and inside one free range, which is RAM and clear of every segment. The ranges of RAM in the
-- memory map are in order and end below 4G by more than the alignment, the alignment is a power of two,
-- the least addresses can be rounded up to it, and the segments are sorted, apart, and each inside one
-- range of RAM.
pub locate_hole-IsLocated :
    (m : Machine) (info : KexecInfo) (q : Request) (e : HoleEnd) (base : ℕ)
    → IsServable m q
    → IsApart info.segment
    → All (IsPlaced m.memory_range) info.segment
    → locate_hole m info q e ≡ returned base
    → base ≢ ulong_max
    → IsLocated m info q base
locate_hole-IsLocated m info q e base ok apart placed h ne =
    let free = free_ranges m.memory_range info.segment in
    let aligned = with_sane_align m q in
    let same : base
        ≡ place m (with_sane_align m q) e (free_ranges m.memory_range info.segment) ulong_max =
      hole_in-returned m q e free base (locate_hole-hole_in m info q e base h).0 ne in
    let low : (r : MemoryRange)
        → IsFree m.memory_range info.segment r
        → (r.start + sane_align m q.align ≤ word) × (r.last < word) =
      λ r f.
        let l =
          InCutRam-EndsLow (sane_align m q.align) m.memory_range r.start r.last ok.ends_low
            f.in_ram in
        let o = f.ordered in (omega arith, omega arith) in
    elim (place-Placed m aligned ok.roundable (IsFree m.memory_range info.segment) low e free
      ulong_max (free_ranges-IsFree m.memory_range info.segment ok.ascending apart placed)) [
        | inl none_found ↦ absurd (ne (same ∙ none_found))
        | inr found ↦ rw same found
      ]
