-- ===== src/Kexec/Add/Buffer.antt =====
-- The segments after `add_buffer`.
use mathlib.Core.List.{Perm}
use monoimage.Prelude.{
  ℕ, ◌+◌, ◌-◌, ◌≤◌, ◌<◌, ◌≡◌, ◌≢◌, ◌⊎◌, inl, inr, true, List, [], ◌∷◌, ◌++◌, arith, All, All-weaken,
  All-append, Bool-cases,
}
use monoimage.Kexec.{
  word, ulong_max, MemoryRange, KexecSegment, KexecInfo, Machine, Outcome, returned, died,
}
use monoimage.Kexec.Sort.{sort_segments}
use monoimage.Kexec.Sort.Laws.{IsApart, sort_segments_lem, sort_segments-All}
use monoimage.Kexec.Hole.{HoleEnd, Request, sane_align, locate_hole}
use monoimage.Kexec.Hole.Free.{IsPlaced, IsClear}
use monoimage.Kexec.Hole.Place.{IsMultiple, multiples_below, power_pos, InCutRam-EndsLow}
use monoimage.Kexec.Hole.Locate.{IsServable, with_sane_align, locate_hole-IsLocated}
use monoimage.Kexec.Add.{add_segment, add_located, add_buffer}
use monoimage.Kexec.Add.Laws.{IsPaged, IsNew, add_segment-IsNew}

-- The two segments share no byte.
abbrev pub IsDisjoint : KexecSegment → KexecSegment → Type 0
IsDisjoint new s = (new.mem + new.memsz ≤ s.mem) ⊎ (s.mem + s.memsz ≤ new.mem)

-- What `add_buffer` leaves behind: the old segments, sorted and apart, and one more that shares no
-- byte with any of them, all inside RAM; the new one is where and as large as the caller asked.
pub record IsAdded (m : Machine) (old : KexecInfo) (buf bufsz : ℕ) (q : Request) (info : KexecInfo)
    (base : ℕ) : Type 0 where
  pub sorted : List KexecSegment
  pub new : KexecSegment
  pub made : info.segment ≡ sorted ++ new ∷ []
  pub perm : Perm sorted old.segment
  pub apart : IsApart sorted
  pub is_new : IsNew m buf bufsz base q.size new
  pub disjoint : All (IsDisjoint new) sorted
  pub placed : All (IsPlaced m.memory_range) info.segment
  pub paged : All (λ s. IsMultiple m.page_size s.mem) info.segment
  pub bounds : (q.least ≤ base) × (base + q.size ≤ q.most) × IsMultiple (sane_align m q.align) base

add_located-cases :
    (m : Machine) (sorted info : KexecInfo) (buf bufsz memsz base : ℕ) (o : Outcome ℕ)
    → add_located m sorted buf bufsz memsz o ≡ returned (info, base)
    → (o ≡ returned base)
      × (base ≢ ulong_max)
      × (add_segment m sorted buf bufsz base memsz ≡ returned info)
unfolding add_located
add_located-cases m sorted info buf bufsz memsz base (died d) h = absurd (ground arith)
add_located-cases m sorted info buf bufsz memsz base (returned b) h =
    (ground arith, ground arith, ground arith)

add_buffer-cases :
    (m : Machine) (old info : KexecInfo) (buf bufsz : ℕ) (q : Request) (e : HoleEnd) (base : ℕ)
    → add_buffer m old buf bufsz q e ≡ returned (info, base)
    → ((sort_segments old).1 ≡ true)
      × (add_located m
            (sort_segments old).0
            buf
            bufsz
            q.size
            (locate_hole m (sort_segments old).0 q e)
          ≡ returned (info, base))
unfolding add_buffer
add_buffer-cases m old info buf bufsz q e base h = elim (Bool-cases (sort_segments old).1) [
  | inl sorted ↦ (sorted, rw sorted at h)
  | inr overlap ↦ absurd (ground arith)
]

pub sane_align-ge-page : (m : Machine) (a : ℕ) → m.page_size ≤ sane_align m a
unfolding sane_align
sane_align-ge-page m a = ground arith

-- A page-aligned segment after the hole is also after the hole rounded up to a page.
round_stays_before :
    (p base size rounded next : ℕ)
    → IsMultiple p base
    → IsMultiple p rounded
    → IsMultiple p next
    → rounded < size + p
    → base + size ≤ next
    → base + rounded ≤ next
round_stays_before p base size rounded next (b, eb) (r, er) n lt le =
    multiples_below p (base + rounded) next (base + rounded) (b + r, omega arith) n (omega arith)
      (omega arith)

new-IsDisjoint :
    (m : Machine) (buf bufsz base memsz : ℕ) (new s : KexecSegment) (r : MemoryRange)
    → IsNew m buf bufsz base memsz new
    → IsMultiple m.page_size s.mem
    → r.start ≤ base
    → base + memsz ≤ r.last
    → IsClear r s
    → IsDisjoint new s
new-IsDisjoint m buf bufsz base memsz new s r n page from to (inl before) =
    let b = n.at_base in
    inl (
      omega (
        arith,
        round_stays_before m.page_size base memsz new.memsz s.mem n.page n.rounded.0 page
            n.rounded.2 (omega arith),
      ))
new-IsDisjoint m buf bufsz base memsz new s r n page from to (inr after) =
    let b = n.at_base in inr (omega arith)

-- The new segment shares no byte with any old one.
All-IsDisjoint :
    (m : Machine) (buf bufsz base memsz : ℕ) (new : KexecSegment) (r : MemoryRange)
    (xs : List KexecSegment)
    → IsNew m buf bufsz base memsz new
    → All (λ s. IsMultiple m.page_size s.mem) xs
    → r.start ≤ base
    → base + memsz ≤ r.last
    → All (IsClear r) xs
    → All (IsDisjoint new) xs
All-IsDisjoint m buf bufsz base memsz new r [] n p from to c = tt
All-IsDisjoint m buf bufsz base memsz new r (s ∷ xs) n p from to c = (
  new-IsDisjoint m buf bufsz base memsz new s r n p.0 from to c.0,
  All-IsDisjoint m buf bufsz base memsz new r xs n p.1 from to c.1,
)

pub new_IsPlaced :
    (m : Machine) (q : Request) (buf bufsz base memsz : ℕ) (new : KexecSegment)
    → IsServable m q
    → 0 < memsz
    → IsNew m buf bufsz base memsz new
    → IsPlaced m.memory_range new
new_IsPlaced m q buf bufsz base memsz new ok pos n =
    let b = n.at_base in
    let u = n.usable in
    let low =
      InCutRam-EndsLow (sane_align m q.align) m.memory_range base (base + new.memsz - 1) ok.ends_low
        u.in_ram in
    let some_align = power_pos (with_sane_align m q) ok.roundable in
    (omega arith, omega arith, rw b.1 u.in_ram)

-- Where `add_buffer` returns, for a size other than 0, it has added one segment to the others, which
-- are the old ones in the order of their addresses. The new segment begins at the address that is
-- returned, a multiple of the alignment at or above the least address that was asked for, and what
-- was asked for ends by the greatest. It shares no byte with another segment, no two of the others
-- meet, and all of them lie inside RAM and begin on a page, as the old ones did. The ranges of RAM in the
-- memory map are in order and end below 4G by more than the alignment, which is a power of two to which
-- the least addresses can be rounded up; the old segments are inside RAM and begin on a page, and a page
-- has a power of two of bytes.
pub add_buffer-IsAdded :
    (m : Machine) (old info : KexecInfo) (buf bufsz : ℕ) (q : Request) (e : HoleEnd) (base : ℕ)
    → IsServable m q
    → IsPaged m
    → All (IsPlaced m.memory_range) old.segment
    → All (λ s. IsMultiple m.page_size s.mem) old.segment
    → 0 < q.size
    → add_buffer m old buf bufsz q e ≡ returned (info, base)
    → IsAdded m old buf bufsz q info base
add_buffer-IsAdded m old info buf bufsz q e base ok p placed paged pos h =
    let (no_overlap, rest) = add_buffer-cases m old info buf bufsz q e base h in
    let sorted = (sort_segments old).0 in
    let (found, ne, added) =
      add_located-cases m (sort_segments old).0 info buf bufsz q.size base _ rest in
    let fits =
      All-weaken (IsPlaced m.memory_range) (λ s. s.mem + s.memsz < word) old.segment (λ s p. p.1)
        placed in
    let (perm, ordered, apart_iff) = sort_segments_lem old fits in
    let apart = apart_iff.0 no_overlap in
    let old_placed = sort_segments-All (IsPlaced m.memory_range) old placed in
    let old_paged = sort_segments-All (λ s. IsMultiple m.page_size s.mem) old paged in
    let (r, free, hole) =
      locate_hole-IsLocated m (sort_segments old).0 q e base ok apart old_placed found ne in
    let low =
      InCutRam-EndsLow (sane_align m q.align) m.memory_range r.start r.last ok.ends_low
        free.in_ram in
    let page = sane_align-ge-page m q.align in
    let to = hole.to in
    let (new, made, n) =
      add_segment-IsNew m (sort_segments old).0 info buf bufsz base q.size p (omega arith)
        (omega arith) (omega arith) added in
    record {
      sorted = (sort_segments old).0.segment;
      new = new;
      made = made;
      perm = perm;
      apart = apart;
      is_new = n;
      disjoint =
          All-IsDisjoint m buf bufsz base q.size new r (sort_segments old).0.segment n old_paged
            hole.from hole.to free.clear;
      placed = rw made (
          All-append (IsPlaced m.memory_range) (sort_segments old).0.segment (new ∷ []) old_placed
            (new_IsPlaced m q buf bufsz base q.size new ok pos n, tt));
      paged = rw made (
          All-append (λ s. IsMultiple m.page_size s.mem) (sort_segments old).0.segment (new ∷ [])
            old_paged (rw n.at_base.1 n.page, tt));
      bounds = (hole.above.1, hole.below.1, hole.aligned);
    }
