-- ===== src/Kexec/Hole/Place.antt =====
-- The place that the second loop of `locate_hole` chooses.
use native.Mathlib.Decide.{dec_le}
use native.Mathlib.Nat.{mul-le-mul_left, one-le-pow}
use monoimage.Prelude.{
  ℕ, ◌+◌, ◌-◌, ◌*◌, ◌^◌, ◌%◌, ◌≤◌, ◌<◌, ◌≡◌, ◌⊎◌, inl, inr, refl, true, some, List, [], ◌∷◌, arith,
  Option-cases, All,
}
use monoimage.Prelude.Bits.{bit_and-align}
use monoimage.Kexec.{word, MemoryRange, Machine}
use monoimage.Kexec.Range.{is_ram, InCutRam}
use monoimage.Kexec.Hole.{
  HoleEnd, no_end, lowest, highest, Request, mask_down, clip_start, clip_end, candidate, place,
}

abbrev pub IsMultiple : ℕ → ℕ → Type 0
IsMultiple a x = (d : ℕ) × (x ≡ a * d)

-- What the caller asked for, met inside one free range.
pub record IsHole (m : Machine) (q : Request) (r : MemoryRange) (base : ℕ) : Type 0 where
  pub aligned : IsMultiple q.align base
  pub from : r.start ≤ base
  pub to : base + q.size ≤ r.last
  pub above : (m.mem_min ≤ base) × (q.least ≤ base)
  pub below : (base + q.size ≤ m.mem_max) × (base + q.size ≤ q.most)

-- The alignment is a power of two of at most 32 bits, and rounding up to it stays below 4G.
pub record IsRoundable (m : Machine) (q : Request) : Type 0 where
  pub bits : ℕ
  pub others : ℕ
  pub total : bits + others ≡ 32
  pub power : q.align ≡ 2 ^ bits
  pub min_low : m.mem_min + q.align ≤ word
  pub least_low : q.least + q.align ≤ word

clip_start_bounds :
    (m : Machine) (q : Request) (r : MemoryRange) (a : ℕ)
    → r.start + a ≤ word
    → m.mem_min + a ≤ word
    → q.least + a ≤ word
    → (r.start ≤ clip_start m q r)
      × (m.mem_min ≤ clip_start m q r)
      × (q.least ≤ clip_start m q r)
      × (clip_start m q r + a ≤ word)
unfolding clip_start
clip_start_bounds m q r a h1 h2 h3 = ground arith

clip_end_bounds :
    (m : Machine) (q : Request) (r : MemoryRange)
    → (clip_end m q r ≤ r.last) × (clip_end m q r ≤ m.mem_max) × (clip_end m q r ≤ q.most)
unfolding clip_end
clip_end_bounds m q r = ground arith

multiples_le : (a d e y : ℕ) → a * d ≤ y → y < a * e + a → a * d ≤ a * e
multiples_le a d e y h k = elim (dec_le d e) [
  | yes p ↦ mul-le-mul_left a p
  | no p ↦ let p' : e + 1 ≤ d = omega arith in absurd (omega (arith, mul-le-mul_left a p'))
]

pub multiples_below : (a x y z : ℕ) → IsMultiple a x → IsMultiple a y → x ≤ z → z < y + a → x ≤ y
multiples_below a x y z (d, p) (e, r) h k = rw (p, r) (multiples_le a d e z (rw p at h) (rw r at k))

pub power_pos : {m : Machine} (q : Request) → IsRoundable m q → 1 ≤ q.align
power_pos q ok = omega (arith, one-le-pow ok.bits 2 (omega arith), ok.power)

-- `mask_down` rounds down to a multiple of the alignment.
mask_down_bounds :
    (m : Machine) (q : Request) (x : ℕ)
    → IsRoundable m q
    → x < word
    → IsMultiple q.align (mask_down q.align x)
      × (mask_down q.align x ≤ x)
      × (x < mask_down q.align x + q.align)
unfolding mask_down
mask_down_bounds m q x ok h =
    let (d, e, le, lt) = bit_and-align ok.bits ok.others x ok.total h in
    rw ok.power (rw e ((d, refl), le, lt))

candidate-cases :
    (m : Machine) (q : Request) (e : HoleEnd) (r : MemoryRange) (base : ℕ)
    → candidate m q e r ≡ some base
    → (mask_down q.align (clip_start m q r + q.align - 1) + q.size ≤ clip_end m q r)
      × ((base ≡ mask_down q.align (clip_start m q r + q.align - 1))
          ⊎ (base ≡ mask_down q.align (clip_end m q r - q.size)))
unfolding candidate
candidate-cases m q no_end r base h = (ground arith, inl (ground arith))
candidate-cases m q lowest r base h = (ground arith, inl (ground arith))
candidate-cases m q highest r base h = (ground arith, inr (ground arith))

-- A candidate is a hole inside the free range.
candidate-IsHole :
    (m : Machine) (q : Request) (e : HoleEnd) (r : MemoryRange) (base : ℕ)
    → IsRoundable m q
    → r.start + q.align ≤ word
    → r.last < word
    → candidate m q e r ≡ some base
    → IsHole m q r base
candidate-IsHole m q e r base ok low fits h =
    let s = clip_start_bounds m q r q.align low ok.min_low ok.least_low in
    let t = clip_end_bounds m q r in
    let some_align = power_pos q ok in
    let (room, choice) = candidate-cases m q e r base h in
    let first = mask_down_bounds m q (clip_start m q r + q.align - 1) ok (omega arith) in
    let last = mask_down_bounds m q (clip_end m q r - q.size) ok (omega arith) in
    let after : mask_down q.align (clip_start m q r + q.align - 1)
        ≤ mask_down q.align (clip_end m q r - q.size) =
      multiples_below q.align _ _ (clip_end m q r - q.size) first.0 last.0 (omega arith) last.2 in
    elim choice [
      | inl at ↦ record {
        aligned = rw at first.0;
        from = omega arith;
        to = omega arith;
        above = omega arith;
        below = omega arith;
      }
      | inr at ↦ record {
        aligned = rw at last.0;
        from = omega arith;
        to = omega arith;
        above = omega arith;
        below = omega arith;
      }
    ]

-- Every range of RAM, with its end cut to 32 bits, ends more than `a` bytes before 4G.
abbrev pub EndsLow : ℕ → List MemoryRange → Type 0
EndsLow a = All (λ r. (is_ram r.type ≡ true) → r.last % word + a < word)

pub InCutRam-EndsLow :
    (a : ℕ) (rs : List MemoryRange) (x y : ℕ) → EndsLow a rs → InCutRam rs x y → y + a < word
InCutRam-EndsLow a [] x y h m = absurd m
InCutRam-EndsLow a (r ∷ rest) x y h (inl m) = omega (arith, h.0 m.0, m.2)
InCutRam-EndsLow a (r ∷ rest) x y h (inr m) = InCutRam-EndsLow a rest x y h.1 m

-- Either no free range was large enough, or the place is a hole in one of them.
abbrev pub Placed : (P : MemoryRange → Type 0) → Machine → Request → ℕ → ℕ → Type 0
Placed P m q init base = (base ≡ init) ⊎ ((r : MemoryRange) × P r × IsHole m q r base)

module _ (m : Machine) (q : Request) (ok : IsRoundable m q) (P : MemoryRange → Type 0)
    (low : (r : MemoryRange) → P r → (r.start + q.align ≤ word) × (r.last < word)) where
  place_first :
      (e : HoleEnd) (r : MemoryRange) (rest : List MemoryRange) (init base : ℕ)
      → P r
      → candidate m q e r ≡ some base
      → Placed P m q base (place m q e rest base)
      → Placed P m q init (place m q e (r ∷ rest) init)
  unfolding place
  place_first no_end r rest init base p found next =
      rw (found, place)
        (inr (r, p, candidate-IsHole m q no_end r base ok (low r p).0 (low r p).1 found))
  place_first lowest r rest init base p found next =
      rw (found, place)
        (inr (r, p, candidate-IsHole m q lowest r base ok (low r p).0 (low r p).1 found))
  place_first highest r rest init base p found (inl same) =
      rw (found, place, same)
        (inr (r, p, candidate-IsHole m q highest r base ok (low r p).0 (low r p).1 found))
  place_first highest r rest init base p found (inr later) = rw (found, place) (inr later)

  pub place-Placed :
      (e : HoleEnd) (free : List MemoryRange) (init : ℕ)
      → All P free
      → Placed P m q init (place m q e free init)
  unfolding place
  place-Placed e [] init h = inl refl
  place-Placed e (r ∷ rest) init h = elim (Option-cases (candidate m q e r)) [
    | inl absent ↦ rw (absent, place) (place-Placed e rest init h.1)
    | inr (base, found) ↦ place_first e r rest init base h.0 found (place-Placed e rest base h.1)
  ]
