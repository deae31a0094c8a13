-- ===== src/Kexec/Range.antt =====
-- kexec-tools/kexec/kexec.c: `valid_memory_range` and `valid_memory_segment`.
use monoimage.Prelude.{
  ℕ, ◌+◌, ◌-◌, ◌%◌, ◌≤◌, ◌<◌, All, ◌≡◌, ◌⊎◌, inl, inr, ◌↔◌, Bool, true, false, ◌&&◌, List, [], ◌∷◌,
  arith, ltb, leb, if◌then◌else◌, Bool-cases,
}
use monoimage.Kexec.{word, RangeType, ram, MemoryRange, KexecSegment, Machine}

unfoldable pub is_ram : RangeType → Bool
is_ram ram = true
is_ram _ = false

-- The loop: is `sstart` to `send` inside one of the memory ranges? The bounds of a range are
-- stored in an `unsigned long`.
unfoldable pub in_some_range : List MemoryRange → ℕ → ℕ → Bool
unfolding is_ram
in_some_range [] sstart send = false
in_some_range (r ∷ rest) sstart send =
    let others = in_some_range rest sstart send in
    if is_ram r.type
    then (if leb (r.start % word) sstart && leb send (r.last % word) then true else others)
    else others

unfoldable pub valid_memory_range : Machine → ℕ → ℕ → Bool
unfolding in_some_range
valid_memory_range m sstart send =
    if ltb send sstart
    then false
    else if ltb m.mem_max send
    then false
    else if ltb sstart m.mem_min
    then false
    else in_some_range m.memory_range sstart send

unfoldable pub valid_memory_segment : Machine → KexecSegment → Bool
unfolding valid_memory_range
valid_memory_segment m s = valid_memory_range m s.mem ((s.mem + s.memsz + word - 1) % word)

-- The bytes `sstart` to `send` lie in one usable range, as kexec reads it: with its bounds cut to 32 bits.
abbrev pub InCutRam : List MemoryRange → ℕ → ℕ → Type 0
InCutRam [] sstart send = ⊥
InCutRam (r ∷ rest) sstart send =
    ((is_ram r.type ≡ true) × (r.start % word ≤ sstart) × (send ≤ r.last % word))
    ⊎ InCutRam rest sstart send

-- What `valid_memory_range` accepts, by its tests.
pub record IsUsable (m : Machine) (sstart send : ℕ) : Type 0 where
  pub ordered : sstart ≤ send
  pub above : m.mem_min ≤ sstart
  pub below : send ≤ m.mem_max
  pub in_ram : InCutRam m.memory_range sstart send

in_some_range→InCutRam :
    (rs : List MemoryRange) (sstart send : ℕ)
    → in_some_range rs sstart send ≡ true
    → InCutRam rs sstart send
unfolding in_some_range
in_some_range→InCutRam [] sstart send h = ground arith
in_some_range→InCutRam (r ∷ rest) sstart send h =
    elim (Bool-cases (in_some_range rest sstart send)) [
      | inl later ↦ inr (in_some_range→InCutRam rest sstart send later)
      | inr no_later ↦ inl (ground arith)
    ]

InCutRam→in_some_range :
    (rs : List MemoryRange) (sstart send : ℕ)
    → InCutRam rs sstart send
    → in_some_range rs sstart send ≡ true
unfolding in_some_range
InCutRam→in_some_range [] sstart send h = absurd h
InCutRam→in_some_range (r ∷ rest) sstart send (inl h) = ground arith
InCutRam→in_some_range (r ∷ rest) sstart send (inr h) =
    ground (arith, InCutRam→in_some_range rest sstart send h)

-- The tests of `valid_memory_range`, as a record.
pub valid_memory_range-IsUsable :
    (m : Machine) (sstart send : ℕ)
    → (valid_memory_range m sstart send ≡ true) ↔ IsUsable m sstart send
unfolding valid_memory_range
valid_memory_range-IsUsable m sstart send = (
  (λ h. record {
    ordered = ground arith;
    above = ground arith;
    below = ground arith;
    in_ram = in_some_range→InCutRam m.memory_range sstart send (ground arith);
  }),
  λ u. ground (
    arith,
    InCutRam→in_some_range m.memory_range sstart send u.in_ram,
    u.ordered,
    u.above,
    u.below,
  ),
)

-- A range of RAM that lies below 4G.
abbrev pub IsLow : MemoryRange → Type 0
IsLow r = is_ram r.type ≡ true → (r.start < word) × (r.last < word)

-- Each byte from `sstart` to `send` lies in the range.
abbrev pub Covers : MemoryRange → (sstart send : ℕ) → Type 0
Covers r sstart send = (x : ℕ) → sstart ≤ x → x ≤ send → (r.start ≤ x) × (x ≤ r.last)

-- One range of RAM holds each byte from `sstart` to `send`.
abbrev pub InRam : List MemoryRange → (sstart send : ℕ) → Type 0
InRam [] sstart send = ⊥
InRam (r ∷ rest) sstart send =
    ((is_ram r.type ≡ true) × Covers r sstart send) ⊎ InRam rest sstart send

pub InCutRam→InRam :
    (rs : List MemoryRange) (sstart send : ℕ)
    → All IsLow rs
    → InCutRam rs sstart send
    → InRam rs sstart send
InCutRam→InRam [] sstart send low m = m
InCutRam→InRam (r ∷ rest) sstart send low (inl (usable, from, to)) =
    let l = low.0 usable in
    inl (usable, λ x a b. (omega (arith, l, from, a), omega (arith, l, to, b)))
InCutRam→InRam (r ∷ rest) sstart send low (inr m) = inr (InCutRam→InRam rest sstart send low.1 m)

InRam→InCutRam :
    (rs : List MemoryRange) (sstart send : ℕ)
    → sstart ≤ send
    → All IsLow rs
    → InRam rs sstart send
    → InCutRam rs sstart send
InRam→InCutRam [] sstart send o low m = m
InRam→InCutRam (r ∷ rest) sstart send o low (inl (usable, covers)) =
    let l = low.0 usable in
    let first = covers sstart (omega arith) o in
    let last = covers send o (omega arith) in
    inl (usable, omega (arith, l, first), omega (arith, l, last))
InRam→InCutRam (r ∷ rest) sstart send o low (inr m) =
    inr (InRam→InCutRam rest sstart send o low.1 m)

-- Where all RAM lies below 4G, `valid_memory_range` returns 1 exactly when the range is not empty, one
-- range of RAM in the memory map holds each of its bytes, and each lies between `mem_min` and `mem_max`.
pub valid_memory_range_iff :
    (m : Machine) (sstart send : ℕ)
    → All IsLow m.memory_range
    → (valid_memory_range m sstart send ≡ true) ↔ (
        (sstart ≤ send)
        × InRam m.memory_range sstart send
        × ((x : ℕ) → sstart ≤ x → x ≤ send → (m.mem_min ≤ x) × (x ≤ m.mem_max)))
valid_memory_range_iff m sstart send low = (
  (λ h.
      let u = (valid_memory_range-IsUsable m sstart send).0 h in
      (
        u.ordered,
        InCutRam→InRam m.memory_range sstart send low u.in_ram,
        λ x a b. (omega (arith, u.above, a), omega (arith, u.below, b)),
      )),
  λ (o, in_ram, bounds).
      let first = bounds sstart (omega arith) o in
      let last = bounds send o (omega arith) in
      (valid_memory_range-IsUsable m sstart send).1 (record {
        ordered = o;
        above = first.0;
        below = last.1;
        in_ram = InRam→InCutRam m.memory_range sstart send o low in_ram;
      }),
)
