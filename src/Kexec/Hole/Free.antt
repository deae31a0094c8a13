-- ===== src/Kexec/Hole/Free.antt =====
-- The free ranges that the first loop of `locate_hole` finds.
use monoimage.Prelude.{
  ℕ, ◌+◌, ◌-◌, ◌%◌, ◌≤◌, ◌<◌, ◌≡◌, ◌⊎◌, inl, inr, true, false, List, [], ◌∷◌, arith, ltb, leb,
  Bool-cases, All, All-append, All-weaken, tests,
}
use monoimage.Kexec.{word, MemoryRange, KexecSegment}
use monoimage.Kexec.Range.{is_ram, InCutRam}
use monoimage.Kexec.Sort.Laws.{IsApart, IsBelow}
use monoimage.Kexec.Hole.{free_range, gap_before, gap_after, carve, free_ranges}

-- A range of RAM starts after the byte `c`.
abbrev pub StartsAfter : ℕ → MemoryRange → Type 0
StartsAfter c t = (is_ram t.type ≡ true) → c < t.start % word

-- The ranges of RAM in the memory map are in order and do not meet. Other ranges may stand anywhere.
abbrev pub IsAscending : List MemoryRange → Type 0
IsAscending [] = Unit
IsAscending (r ∷ rest) =
    ((is_ram r.type ≡ true)
      → (r.start % word ≤ r.last % word) × All (StartsAfter (r.last % word)) rest)
    × IsAscending rest

-- A segment that is not empty, fits below the end of the address space, and is inside one range.
abbrev pub IsPlaced : List MemoryRange → KexecSegment → Type 0
IsPlaced rs s = (0 < s.memsz) × (s.mem + s.memsz < word) × InCutRam rs s.mem (s.mem + s.memsz - 1)

-- No byte of the range belongs to the segment.
abbrev pub IsClear : MemoryRange → KexecSegment → Type 0
IsClear f s = (f.last < s.mem) ⊎ (s.mem + s.memsz ≤ f.start)

-- What holds of a free range: its bytes are RAM, and it is clear of every segment.
pub record IsFree (rs : List MemoryRange) (segments : List KexecSegment) (f : MemoryRange)
    : Type 0 where
  pub ordered : f.start ≤ f.last
  pub in_ram : InCutRam rs f.start f.last
  pub clear : All (IsClear f) segments

-- A segment that begins in the range up to `mend` ends there too.
abbrev StaysIn : ℕ → KexecSegment → Type 0
StaysIn mend s =
    (0 < s.memsz) × (s.mem + s.memsz < word) × ((s.mem ≤ mend) → s.mem + s.memsz ≤ mend + 1)

abbrev Within : ℕ → ℕ → List KexecSegment → MemoryRange → Type 0
Within mstart mend segments f =
    (mstart ≤ f.start) × (f.start ≤ f.last) × (f.last ≤ mend) × All (IsClear f) segments

record Carved (mstart mend : ℕ) (segments : List KexecSegment) (free : List MemoryRange)
    (left : List KexecSegment) : Type 1 where
  within : All (Within mstart mend segments) free
  later : IsBelow (mend + 1) left
  apart : IsApart left
  suffix : (P : KexecSegment → Type 0) → All P segments → All P left
  rebuild :
      (P : KexecSegment → Type 0)
      → All P left
      → ((s : KexecSegment) → s.mem + s.memsz ≤ mend + 1 → P s)
      → All P segments

IsClear-of_later :
    (f : MemoryRange) (xs : List KexecSegment) → IsBelow (f.last + 1) xs → All (IsClear f) xs
IsClear-of_later f xs h =
    All-weaken (λ s. f.last + 1 ≤ s.mem) (IsClear f) xs (λ s p. inl (omega arith)) h

IsBelow-weaken : (a b : ℕ) (xs : List KexecSegment) → a ≤ b → IsBelow b xs → IsBelow a xs
IsBelow-weaken a b xs h = All-weaken (λ s. b ≤ s.mem) (λ s. a ≤ s.mem) xs (λ s p. omega arith)

gap_after-Within :
    (mstart mend : ℕ) (xs : List KexecSegment)
    → IsBelow (mend + 1) xs
    → All (Within mstart mend xs) (gap_after mstart mend)
unfolding gap_after
gap_after-Within mstart mend xs later = elim (Bool-cases (leb mstart mend)) [
  | inl e ↦ rw e (
    (omega arith, omega tests, omega arith, IsClear-of_later (free_range mstart mend) xs later),
    tt,
  )
  | inr e ↦ rw e tt
]

gap_before-Within :
    (mstart mend at : ℕ) (xs : List KexecSegment)
    → at ≤ mend
    → IsBelow at xs
    → All (Within mstart mend xs) (gap_before mstart at)
unfolding gap_before
gap_before-Within mstart mend at xs h from = elim (Bool-cases (ltb mstart at)) [
  | inl e ↦
      let lt : mstart < at = omega tests in
      let later : IsBelow (at - 1 + 1) xs = IsBelow-weaken (at - 1 + 1) at xs (omega arith) from in
      rw e (
        (
          omega arith,
          omega arith,
          omega arith,
          IsClear-of_later (free_range mstart (at - 1)) xs later,
        ),
        tt,
      )
  | inr e ↦ rw e tt
]

-- A free range after a segment is clear of that segment too.
Within-after :
    (mstart mend : ℕ) (s : KexecSegment) (rest : List KexecSegment) (free : List MemoryRange)
    → mstart ≤ s.mem
    → All (Within (s.mem + s.memsz) mend rest) free
    → All (Within mstart mend (s ∷ rest)) free
Within-after mstart mend s rest free h =
    All-weaken (Within (s.mem + s.memsz) mend rest) (Within mstart mend (s ∷ rest)) free
      (λ f w. (omega arith, w.1, w.2, (inr w.0, w.3)))

from_head :
    (s : KexecSegment) (rest : List KexecSegment) → IsApart (s ∷ rest) → IsBelow s.mem (s ∷ rest)
from_head s rest a = (omega arith, IsBelow-weaken s.mem (s.mem + s.memsz) rest (omega arith) a.0)

carve-Carved :
    (mstart mend : ℕ) (xs : List KexecSegment)
    → IsApart xs
    → IsBelow mstart xs
    → All (StaysIn mend) xs
    → Carved mstart mend xs (carve mstart mend xs).0 (carve mstart mend xs).1
unfolding carve
carve-Carved mstart mend [] a b st = record {
  within = gap_after-Within mstart mend [] tt;
  later = tt;
  apart = tt;
  suffix = λ P h. h;
  rebuild = λ P h g. h;
}
carve-Carved mstart mend (s ∷ rest) a b st = elim (Bool-cases (leb s.mem mend)) [
  | inl e ↦
      let next : ((s.mem + s.memsz + word - 1) % word + 1) % word ≡ s.mem + s.memsz = omega arith in
      let le : s.mem ≤ mend = omega tests in
      let sub = carve-Carved (s.mem + s.memsz) mend rest a.1 a.0 st.1 in
      rw (e, next)
        (record {
          within =
              All-append (Within mstart mend (s ∷ rest)) (gap_before mstart s.mem)
                (carve (s.mem + s.memsz) mend rest).0
                (gap_before-Within mstart mend s.mem (s ∷ rest) le (from_head s rest a))
                (Within-after mstart mend s rest _ b.0 sub.within);
          later = sub.later;
          apart = sub.apart;
          suffix = λ P h. sub.suffix P h.1;
          rebuild = λ P h g. (g s (st.0.2 le), sub.rebuild P h g);
        })
  | inr e ↦
      let lt : mend + 1 ≤ s.mem = omega tests in
      let later = IsBelow-weaken (mend + 1) s.mem (s ∷ rest) lt (from_head s rest a) in
      rw e (record {
        within = gap_after-Within mstart mend (s ∷ rest) later;
        later = later;
        apart = a;
        suffix = λ P h. h;
        rebuild = λ P h g. h;
      })
]

-- What lies in one of the later ranges begins after the last byte `c` of an earlier one.
pub InCutRam-after :
    (rest : List MemoryRange) (c x y : ℕ) → All (StartsAfter c) rest → InCutRam rest x y → c < x
InCutRam-after [] c x y h m = absurd m
InCutRam-after (t ∷ rest) c x y h (inl m) = omega (arith, h.0 m.0, m.1)
InCutRam-after (t ∷ rest) c x y h (inr m) = InCutRam-after rest c x y h.1 m

module _ (r : MemoryRange) (rest : List MemoryRange)
    (asc : (r.start % word ≤ r.last % word) × All (StartsAfter (r.last % word)) rest) where
  placed_from : (s : KexecSegment) → IsPlaced (r ∷ rest) s → r.start % word ≤ s.mem
  placed_from s (fits, low, inl m) = m.1
  placed_from s (fits, low, inr m) =
      omega (arith, asc.0, InCutRam-after rest (r.last % word) s.mem (s.mem + s.memsz - 1) asc.1 m)

  placed_StaysIn : (s : KexecSegment) → IsPlaced (r ∷ rest) s → StaysIn (r.last % word) s
  placed_StaysIn s (fits, low, inl m) = (fits, low, λ _. omega (arith, m.2))
  placed_StaysIn s (fits, low, inr m) = (
    fits,
    low,
    λ le. absurd (
        omega (arith, le, InCutRam-after rest (r.last % word) s.mem (s.mem + s.memsz - 1) asc.1 m)),
  )

  IsPlaced-later :
      (s : KexecSegment) → r.last % word < s.mem → IsPlaced (r ∷ rest) s → IsPlaced rest s
  IsPlaced-later s h (fits, low, inl m) = absurd (omega (arith, m.2))
  IsPlaced-later s h (fits, low, inr m) = (fits, low, m)

  All-IsPlaced_later :
      (xs : List KexecSegment)
      → IsBelow (r.last % word + 1) xs
      → All (IsPlaced (r ∷ rest)) xs
      → All (IsPlaced rest) xs
  All-IsPlaced_later [] h p = tt
  All-IsPlaced_later (s ∷ xs) h p =
      (IsPlaced-later s (omega (arith, h.0)) p.0, All-IsPlaced_later xs h.1 p.1)

IsPlaced-skip :
    (r : MemoryRange) (rest : List MemoryRange) (s : KexecSegment)
    → is_ram r.type ≡ false
    → IsPlaced (r ∷ rest) s
    → IsPlaced rest s
IsPlaced-skip r rest s e (fits, low, inl m) = absurd (ground (arith, m.0))
IsPlaced-skip r rest s e (fits, low, inr m) = (fits, low, m)

IsFree-skip :
    (r : MemoryRange) (rest : List MemoryRange) (xs : List KexecSegment) (f : MemoryRange)
    → IsFree rest xs f
    → IsFree (r ∷ rest) xs f
IsFree-skip r rest xs f h = record { ordered = h.ordered; in_ram = inr h.in_ram; clear = h.clear }

Within-IsFree :
    (r : MemoryRange) (rest : List MemoryRange) (xs : List KexecSegment) (f : MemoryRange)
    → is_ram r.type ≡ true
    → Within (r.start % word) (r.last % word) xs f
    → IsFree (r ∷ rest) xs f
Within-IsFree r rest xs f e w = record { ordered = w.1; in_ram = inl (e, w.0, w.2); clear = w.3 }

-- Every free range lies in RAM and is clear of every segment, where the ranges of RAM are in order and do
-- not meet, and the segments are sorted, apart, and each inside one range of RAM.
pub free_ranges-IsFree :
    (rs : List MemoryRange) (xs : List KexecSegment)
    → IsAscending rs
    → IsApart xs
    → All (IsPlaced rs) xs
    → All (IsFree rs xs) (free_ranges rs xs)
unfolding free_ranges
free_ranges-IsFree [] xs asc a p = tt
free_ranges-IsFree (r ∷ rest) xs asc a p = elim (Bool-cases (is_ram r.type)) [
  | inl e ↦
      let c =
        carve-Carved (r.start % word) (r.last % word) xs a
          (All-weaken (IsPlaced (r ∷ rest)) (λ s. r.start % word ≤ s.mem) xs
            (placed_from r rest (asc.0 e)) p)
          (All-weaken (IsPlaced (r ∷ rest)) (StaysIn (r.last % word)) xs
            (placed_StaysIn r rest (asc.0 e)) p) in
      let left = (carve (r.start % word) (r.last % word) xs).1 in
      let later =
        free_ranges-IsFree rest left asc.1 c.apart
          (All-IsPlaced_later r rest (asc.0 e) left c.later (c.suffix (IsPlaced (r ∷ rest)) p)) in
      rw e (
        All-append (IsFree (r ∷ rest) xs) _ _
          (All-weaken (Within (r.start % word) (r.last % word) xs) (IsFree (r ∷ rest) xs) _
            (λ f. Within-IsFree r rest xs f e) c.within)
          (All-weaken (IsFree rest left) (IsFree (r ∷ rest) xs) _
            (λ f h.
              let after = InCutRam-after rest (r.last % word) f.start f.last (asc.0 e).1 h.in_ram in
              record {
                ordered = h.ordered;
                in_ram = inr h.in_ram;
                clear = c.rebuild (IsClear f) h.clear (λ s le. inr (omega arith));
              })
            later))
  | inr e ↦ rw e (
      All-weaken (IsFree rest xs) (IsFree (r ∷ rest) xs) _ (IsFree-skip r rest xs) (
        free_ranges-IsFree rest xs asc.1 a
          (All-weaken (IsPlaced (r ∷ rest)) (IsPlaced rest) xs (λ s. IsPlaced-skip r rest s e) p)))
]
