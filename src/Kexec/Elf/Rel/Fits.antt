-- ===== src/Kexec/Elf/Rel/Fits.antt =====
-- The sections of a relocatable object lie one after the other in the memory that was added for them.
use monoimage.Prelude.{
  ℕ, ◌+◌, ◌-◌, ◌*◌, ◌%◌, ◌^◌, ◌≤◌, ◌<◌, ◌≡◌, refl, sym, ap, ◌∙◌, true, false, not, List, [], ◌∷◌,
  ltb, ◌==◌, if◌then◌else◌, All, arith, inl, inr, Bool-cases, subst,
}
use monoimage.Prelude.Bits.{bit_and-align}
use native.Mathlib.Nat.{one-le-pow}
use monoimage.Kexec.{word}
use monoimage.Kexec.Hole.{mask_down}
use monoimage.Kexec.Hole.Place.{IsMultiple, multiples_below}
use monoimage.Kexec.Elf.{MemShdr}
use monoimage.Kexec.Elf.Rel.{
  sht_nobits, is_alloc, align_up, Footprint, no_footprint, note_section, bss_pad, layout, footprint,
  place_sections,
}

-- A power of two that is a word.
abbrev pub IsPower : ℕ → Type 0
IsPower a = (k : ℕ) × (j : ℕ) × (k + j ≡ 32) × (a ≡ 2 ^ k)

IsPower-pos : (a : ℕ) → IsPower a → 1 ≤ a
IsPower-pos a (k, j, e, p) = omega (arith, p, one-le-pow k 2 (omega arith))

align_up_bounds :
    (x a : ℕ)
    → IsPower a
    → x + a ≤ word
    → IsMultiple a (align_up x a) × (x ≤ align_up x a) × (align_up x a < x + a)
unfolding align_up mask_down
align_up_bounds x a (k, j, e, p) h =
    let pos = IsPower-pos a (k, j, e, p) in
    let last : (x + (a + word - 1) % word) % word ≡ x + a - 1 = omega (arith, h, pos) in
    let (d, masked, le, lt) = bit_and-align k j (x + a - 1) e (omega (arith, h, pos)) in
    let same : mask_down a ((x + (a + word - 1) % word) % word) ≡ a * d =
      ap (mask_down a) last
      ∙ ap (λ b. mask_down b (x + a - 1)) p
      ∙ masked
      ∙ ap (λ b. b * d) (sym p) in
    let prod : a * d ≡ 2 ^ k * d = ap (λ b. b * d) p in
    rw same ((d, refl), omega (arith, lt, prod, p, pos), omega (arith, le, prod, pos))

IsMultiple-add : (a x y : ℕ) → IsMultiple a x → IsMultiple a y → IsMultiple a (x + y)
IsMultiple-add a x y (d, p) (e, q) = (d + e, omega (arith, p, q))

-- Rounding up behind a multiple.
align_up-add :
    (base x a : ℕ)
    → IsPower a
    → IsMultiple a base
    → base + x + a ≤ word
    → align_up (base + x) a ≡ base + align_up x a
align_up-add base x a pow m h =
    let far = align_up_bounds (base + x) a pow h in
    let near = align_up_bounds x a pow (omega (arith, h)) in
    let pos = IsPower-pos a pow in
    let sum = IsMultiple-add a base (align_up x a) m near.0 in
    let below =
      multiples_below a (align_up (base + x) a) (base + align_up x a) (base + x + a - 1) far.0 sum
        (omega (arith, far.2, pos)) (omega (arith, near.1, pos)) in
    let above =
      multiples_below a (base + align_up x a) (align_up (base + x) a) (base + x + a - 1) sum far.0
        (omega (arith, near.2, pos)) (omega (arith, far.1, pos)) in
    omega (arith, below, above)

-- The sections that are allocated each begin at a multiple of their alignment and behind the last one of
-- their kind, those with bytes from `d` to `d_end`, where they are copied to `buf` on, and the
-- others from `b` to `b_end`.
abbrev pub AreLaid : (buf base d b : ℕ) → List MemShdr → (d_end b_end : ℕ) → Type 0
AreLaid buf base d b [] d_end b_end = (d ≤ d_end) × (b ≤ b_end)
AreLaid buf base d b (s ∷ ss) d_end b_end =
    if not (is_alloc s.sh_flags)
    then AreLaid buf base d b ss d_end b_end
    else if not (s.sh_type == sht_nobits)
    then (d ≤ s.sh_addr)
      × IsMultiple s.sh_addralign s.sh_addr
      × (s.sh_data ≡ (buf + (s.sh_addr - base)) % word)
      × AreLaid buf base (s.sh_addr + s.sh_size) b ss d_end b_end
    else (b ≤ s.sh_addr)
      × IsMultiple s.sh_addralign s.sh_addr
      × AreLaid buf base d (s.sh_addr + s.sh_size) ss d_end b_end

-- A bound of the memory that the sections take.
abbrev pub room : List MemShdr → ℕ
room [] = 0
room (s ∷ ss) = (s.sh_addralign + s.sh_size) + room ss

-- The alignment of a section that is allocated is a power of two, and divides the address at which the
-- sections of its kind begin.
abbrev pub IsAligned : (base bss : ℕ) → MemShdr → Type 0
IsAligned base bss s =
    is_alloc s.sh_flags ≡ true
    → IsPower s.sh_addralign
      × IsMultiple s.sh_addralign (if s.sh_type == sht_nobits then bss else base)

-- The addresses for the rest, where they are computed as words.
AreLaid-bss :
    (buf base d b b' : ℕ) (ss : List MemShdr) (d_end b_end : ℕ)
    → b' ≡ b
    → b < word
    → AreLaid buf base d b (place_sections buf base d b ss) d_end b_end
    → AreLaid buf base d b' (place_sections buf base d (b' % word) ss) d_end b_end
AreLaid-bss buf base d b b' ss d_end b_end e h laid =
    let small : b ≡ b % word = omega (arith, h) in
    subst (λ t. AreLaid buf base d t (place_sections buf base d (t % word) ss) d_end b_end) (sym e)
      (subst (λ t. AreLaid buf base d b (place_sections buf base d t ss) d_end b_end) small laid)

AreLaid-data :
    (buf base d d' b : ℕ) (ss : List MemShdr) (d_end b_end : ℕ)
    → d' ≡ d
    → d < word
    → AreLaid buf base d b (place_sections buf base d b ss) d_end b_end
    → AreLaid buf base d' b (place_sections buf base (d' % word) b ss) d_end b_end
AreLaid-data buf base d d' b ss d_end b_end e h laid =
    let small : d ≡ d % word = omega (arith, h) in
    subst (λ t. AreLaid buf base t b (place_sections buf base (t % word) b ss) d_end b_end) (sym e)
      (subst (λ t. AreLaid buf base d b (place_sections buf base t b ss) d_end b_end) small laid)

-- The footprint after a section without bytes, and after one with bytes.
abbrev with_bss : MemShdr → Footprint → Footprint
with_bss s p = record p {
  bss_align = if ltb p.bss_align s.sh_addralign then s.sh_addralign else p.bss_align;
  bsssz = (align_up p.bsssz s.sh_addralign + s.sh_size) % word;
}

abbrev with_data : MemShdr → Footprint → Footprint
with_data s p = record p {
  buf_align = if ltb p.buf_align s.sh_addralign then s.sh_addralign else p.buf_align;
  bufsz = (align_up p.bufsz s.sh_addralign + s.sh_size) % word;
}

footprint-bss :
    (s : MemShdr) (ss : List MemShdr) (p : Footprint)
    → is_alloc s.sh_flags ≡ true
    → (s.sh_type == sht_nobits) ≡ true
    → footprint (s ∷ ss) p ≡ footprint ss (with_bss s p)
unfolding footprint note_section
footprint-bss s ss p alloc nobits = rw (alloc, nobits) refl

footprint-data :
    (s : MemShdr) (ss : List MemShdr) (p : Footprint)
    → is_alloc s.sh_flags ≡ true
    → (s.sh_type == sht_nobits) ≡ false
    → footprint (s ∷ ss) p ≡ footprint ss (with_data s p)
unfolding footprint note_section
footprint-data s ss p alloc bits = rw (alloc, bits) refl

footprint-skip :
    (s : MemShdr) (ss : List MemShdr) (p : Footprint)
    → is_alloc s.sh_flags ≡ false
    → footprint (s ∷ ss) p ≡ footprint ss p
unfolding footprint
footprint-skip s ss p out = rw out refl

place_sections-AreLaid :
    (buf base bss : ℕ) (ss : List MemShdr) (p : Footprint)
    → base + p.bufsz + room ss < word
    → bss + p.bsssz + room ss < word
    → All (IsAligned base bss) ss
    → AreLaid buf base
        (base + p.bufsz)
        (bss + p.bsssz)
        (place_sections buf base (base + p.bufsz) (bss + p.bsssz) ss)
        (base + (footprint ss p).bufsz)
        (bss + (footprint ss p).bsssz)
unfolding footprint place_sections
place_sections-AreLaid buf base bss [] p h h' ok = (omega arith, omega arith)
place_sections-AreLaid buf base bss (s ∷ ss) p h h' ok =
    let a = s.sh_addralign in
    elim (Bool-cases (is_alloc s.sh_flags)) [
      | inr out ↦
          rw (footprint-skip s ss p out, out, out)
            (place_sections-AreLaid buf base bss ss p (omega (arith, h)) (omega (arith, h')) ok.1)
      | inl alloc ↦ elim (Bool-cases (s.sh_type == sht_nobits)) [
        | inl nobits ↦
            let (pow, onto_if) = ok.0 alloc in
            let onto_bss : IsMultiple a bss = rw nobits at onto_if in
            let q = with_bss s p in
            let near = align_up_bounds p.bsssz a pow (omega (arith, h')) in
            let up = align_up_bounds (bss + p.bsssz) a pow (omega (arith, h')) in
            let along = align_up-add bss p.bsssz a pow onto_bss (omega (arith, h')) in
            let rest =
              place_sections-AreLaid buf base bss ss q (omega (arith, h))
                (omega (arith, h', near.2)) ok.1 in
            rw (footprint-bss s ss p alloc nobits, alloc, nobits, alloc, nobits)
              (
                up.1,
                up.0,
                AreLaid-bss buf base (base + p.bufsz) (bss + q.bsssz)
                    (align_up (bss + p.bsssz) a + s.sh_size) ss (base + (footprint ss q).bufsz)
                    (bss + (footprint ss q).bsssz) (omega (arith, h', near.2, along))
                    (omega (arith, h', near.2)) rest,
              )
        | inr bits ↦
            let (pow, onto_if) = ok.0 alloc in
            let onto_base : IsMultiple a base = rw bits at onto_if in
            let q = with_data s p in
            let near = align_up_bounds p.bufsz a pow (omega (arith, h)) in
            let up = align_up_bounds (base + p.bufsz) a pow (omega (arith, h)) in
            let along = align_up-add base p.bufsz a pow onto_base (omega (arith, h)) in
            let rest =
              place_sections-AreLaid buf base bss ss q (omega (arith, h, near.2))
                (omega (arith, h')) ok.1 in
            rw (footprint-data s ss p alloc bits, alloc, bits, alloc, bits)
              (
                up.1,
                up.0,
                omega (arith, h, up.1, up.2),
                AreLaid-data buf base (base + q.bufsz) (align_up (base + p.bufsz) a + s.sh_size)
                    (bss + p.bsssz) ss (base + (footprint ss q).bufsz)
                    (bss + (footprint ss q).bsssz) (omega (arith, h, near.2, along))
                    (omega (arith, h, near.2)) rest,
              )
      ]
    ]

-- `layout` agrees with the footprint that it was given memory for: where the alignments are powers of two
-- that divide the address at which the sections of their kind begin, and the sums stay below 4G, the
-- sections with bytes lie in the first `bufsz` bytes, each at a multiple of its alignment, behind the one
-- before, and at the same place in the buffer; and the others in the `bsssz` bytes behind the padding.
pub layout-AreLaid :
    (buf base bss : ℕ) (ss : List MemShdr) (p : Footprint)
    → footprint ss no_footprint ≡ p
    → (base + p.bufsz + bss_pad p) % word ≡ bss
    → base + room ss < word
    → bss + room ss < word
    → All (IsAligned base bss) ss
    → AreLaid buf base base bss (layout buf base ss) (base + p.bufsz) (bss + p.bsssz)
unfolding layout
layout-AreLaid buf base bss ss p e e' h h' ok =
    let none_yet : base + 0 ≡ base = omega arith in
    let none_yet' : bss + 0 ≡ bss = omega arith in
    let laid =
      place_sections-AreLaid buf base bss ss no_footprint (omega (arith, h)) (omega (arith, h'))
        ok in
    rw (e, e') (rw (none_yet, none_yet', e) at laid)
