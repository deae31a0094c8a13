-- ===== src/Kexec/Elf/Exec/Dynamic.antt =====
-- The loading of a dynamic executable, which is moved to a hole.
use native.Mathlib.Nat.{pow-suc, pow-zero}
use monoimage.Prelude.{
  ℕ, zero, suc, ◌+◌, ◌-◌, ◌*◌, ◌%◌, ◌^◌, ◌≤◌, ◌<◌, ◌≡◌, ◌≢◌, inl, inr, refl, sym, ap, subst, ◌∙◌,
  true, false, some, none, List, [], ◌∷◌, ◌++◌, ◌==◌, arith, All, Bool-cases, ==_iff,
}
use monoimage.Kexec.{word, ulong_max, KexecInfo, Machine, returned, Outcome-cases}
use monoimage.Kexec.Range.{valid_memory_range, valid_memory_range-IsUsable}
use monoimage.Kexec.Sort.Laws.{IsApart}
use monoimage.Kexec.Hole.{lowest, locate_hole, sane_align}
use monoimage.Kexec.Hole.Free.{IsPlaced}
use monoimage.Kexec.Hole.Place.{IsMultiple, EndsLow, InCutRam-EndsLow}
use monoimage.Kexec.Hole.Locate.{IsServable, locate_hole-IsLocated}
use monoimage.Kexec.Add.{add_segment}
use monoimage.Kexec.Add.Laws.{IsPaged, page_test, add_segment-cases}
use monoimage.Kexec.Add.Buffer.{sane_align-ge-page}
use monoimage.Kexec.Elf.{MemPhdr, MemEhdr}
use monoimage.Kexec.Elf.Exec.{
  et_dyn, pt_load, Extent, note_extent, extent_loop, extent_of, dyn_request, dyn_base, load_loop,
  load_at, load_phdrs, elf_exec_load,
}
use monoimage.Kexec.Elf.Exec.Segments.{copied, load_loop-added, load_loop-other}

-- The loop never lowers `first`.
extent_loop-first : (ps : List MemPhdr) (e : Extent) → (extent_loop ps e).first ≡ e.first
unfolding extent_loop
extent_loop-first [] e = refl
extent_loop-first (p ∷ ps) e =
    extent_loop-first ps (note_extent p e) ∙ (unfold note_extent in (ground arith))

extent_of-first : (ps : List MemPhdr) → (extent_of ps).first ≡ ulong_max
unfolding extent_of
extent_of-first ps = extent_loop-first ps _

-- Each header to load, wherever it stands, is given to `add_segment`.
load_loop-reaches :
    (m : Machine) (base : ℕ) (info r : KexecInfo) (front : List MemPhdr) (p : MemPhdr)
    (back : List MemPhdr)
    → (p.p_type == pt_load) ≡ true
    → load_loop m base info (front ++ p ∷ back) ≡ returned r
    → (info₁ : KexecInfo) × (info₂ : KexecInfo) × (add_segment m info₁ p.p_data
          (copied p)
          ((p.p_paddr + base) % word)
          p.p_memsz
        ≡ returned info₂)
load_loop-reaches m base info r [] p back load e =
    let (info₂, added, _) = load_loop-added m base info p back load e in (info, info₂, added)
load_loop-reaches m base info r (q ∷ front) p back load e =
    elim (Bool-cases (q.p_type == pt_load)) [
      | inl q_load ↦
          let (info', _, rest) = load_loop-added m base info q (front ++ p ∷ back) q_load e in
          load_loop-reaches m base info' r front p back load rest
      | inr other ↦
          load_loop-reaches m base info r front p back load
            (sym (load_loop-other m base info q (front ++ p ∷ back) other) ∙ e)
    ]

abbrev IsEven : ℕ → Type 0
IsEven n = (d : ℕ) × (n ≡ 2 * d)

multiple-IsEven : (bits a x : ℕ) → a ≡ 2 ^ bits → 2 ≤ a → IsMultiple a x → IsEven x
multiple-IsEven zero a x e big mult = absurd (omega (arith, e, pow-zero 2))
multiple-IsEven (suc bits) a x e big (d, eq) =
    (2 ^ bits * d, eq ∙ ap (λ t. t * d) (e ∙ pow-suc 2 bits) ∙ grind arith)

odd_place :
    (paddr hole : ℕ)
    → IsEven paddr
    → IsEven hole
    → IsEven ((paddr + (hole + word - ulong_max) % word) % word)
    → ⊥
odd_place paddr hole (a, p) (b, q) (c, r) = omega (arith, p, q, r)

-- The range from the end of the address space is never usable, where RAM ends before it.
not_valid :
    (m : Machine) (a last : ℕ)
    → EndsLow a m.memory_range
    → 0 < a
    → last < word
    → valid_memory_range m ulong_max last ≡ false
not_valid m a last low pos small = elim (Bool-cases (valid_memory_range m ulong_max last)) [
  | inr no_range ↦ no_range
  | inl range ↦
      let u = (valid_memory_range-IsUsable m ulong_max last).0 range in
      let ordered = u.ordered in
      absurd (omega (arith, InCutRam-EndsLow a m.memory_range ulong_max last low u.in_ram))
]

extent_loop-last : (ps : List MemPhdr) (e : Extent) → e.last < word → (extent_loop ps e).last < word
unfolding extent_loop
extent_loop-last [] e h = h
extent_loop-last (p ∷ ps) e h =
    extent_loop-last ps (note_extent p e) (unfold note_extent in (ground arith))

-- Where there is a base, it is that of a hole, and one more.
dyn_base-hole :
    (m : Machine) (info : KexecInfo) (h : MemEhdr) (e : Extent) (base : ℕ)
    → valid_memory_range m e.first e.last ≡ false
    → dyn_base m info h e ≡ returned (some base)
    → (hole : ℕ) × (locate_hole m info (dyn_request h e) lowest ≡ returned hole)
      × (hole ≢ ulong_max)
      × (base ≡ (hole + word - e.first) % word)
unfolding dyn_base
dyn_base-hole m info h e base no_range eq =
    elim (Outcome-cases (locate_hole m info (dyn_request h e) lowest)) [
      | inr (d, l) ↦ absurd (ground (arith, no_range, l, eq))
      | inl (hole, l) ↦ elim (Bool-cases (hole == ulong_max)) [
        | inl full ↦ absurd (ground (arith, no_range, l, full, eq))
        | inr found ↦ (hole, l, ground (arith, found), ground (arith, no_range, l, found, eq))
      ]
    ]

-- What a dynamic executable is loaded with.
load_phdrs-moved :
    (m : Machine) (h : MemEhdr) (info info' : KexecInfo) (ps : List MemPhdr)
    → h.e_type ≡ et_dyn
    → load_phdrs m h ps info ≡ returned (some info')
    → (base : ℕ) × (dyn_base m info h (extent_of ps) ≡ returned (some base))
      × (load_loop m base info ps ≡ returned info')
load_phdrs-moved m h info info' ps dyn e = elim (Outcome-cases (dyn_base m info h (extent_of ps))) [
  | inr (d, l) ↦ absurd (unfold load_phdrs in (ground (arith, dyn, l, e)))
  | inl (none, l) ↦ absurd (unfold load_phdrs load_at in (ground (arith, dyn, l, e)))
  | inl (some base, l) ↦ elim (Outcome-cases (load_loop m base info ps)) [
    | inl (i, done) ↦
        (base, l, done ∙ unfold load_phdrs load_at in (ground (arith, dyn, l, done, e)))
    | inr (d, done) ↦ absurd (unfold load_phdrs load_at in (ground (arith, dyn, l, done, e)))
  ]
]

-- A dynamic executable with a segment to load that is not empty and begins on a page is never loaded:
-- `first` stays ULONG_MAX, the addresses are moved by one byte more than the hole, and no multiple of
-- a page is left one; the run may also end before that, where `locate_hole` overruns its array. Pages
-- have at least two bytes and are a power of two, the ranges of RAM are in order and end below 4G by
-- more than the alignment, a power of two, and the segments before are apart and in RAM.
pub elf_exec_load-dynamic :
    (m : Machine) (h : MemEhdr) (info info' : KexecInfo) (front : List MemPhdr) (p : MemPhdr)
    (back : List MemPhdr)
    → IsPaged m
    → 2 ≤ m.page_size
    → IsServable m (dyn_request h (extent_of (front ++ p ∷ back)))
    → IsApart info.segment
    → All (IsPlaced m.memory_range) info.segment
    → h.e_type ≡ et_dyn
    → h.e_phdr ≡ some (front ++ p ∷ back)
    → p.p_type ≡ pt_load
    → p.p_memsz ≢ 0
    → IsMultiple m.page_size p.p_paddr
    → elf_exec_load m h info ≢ returned (some info')
unfolding elf_exec_load
elf_exec_load-dynamic m h info info' front p back paged two ok apart placed dyn t load some_size
      page e =
    let ps = front ++ p ∷ back in
    let q = dyn_request h (extent_of ps) in
    let (base, based, looped) = load_phdrs-moved m h info info' ps dyn (rw t at e) in
    let wide : 2 ≤ sane_align m q.align = omega (arith, two, sane_align-ge-page m q.align) in
    let no_range =
      ap (λ t. valid_memory_range m t (extent_of ps).last) (extent_of-first ps)
      ∙ not_valid m (sane_align m q.align) (extent_of ps).last ok.ends_low (omega (arith, wide))
          (unfold extent_of in (extent_loop-last ps _ (omega arith))) in
    let (hole, located, ne, moved) = dyn_base-hole m info h (extent_of ps) base no_range based in
    let (r, free, there) = locate_hole-IsLocated m info q lowest hole ok apart placed located ne in
    let (info₁, info₂, added) =
      load_loop-reaches m base info info' front p back ((==_iff p.p_type pt_load).1 load) looped in
    let (on_page, _, _) =
      add_segment-cases m info₁ info₂ p.p_data (copied p) ((p.p_paddr + base) % word) p.p_memsz
        added some_size in
    let even = λ (x : ℕ) (mult : IsMultiple m.page_size x).
      multiple-IsEven paged.bits m.page_size x paged.power two mult in
    let at_base =
      even ((p.p_paddr + base) % word) (page_test m ((p.p_paddr + base) % word) paged on_page) in
    let shift : base ≡ (hole + word - ulong_max) % word =
      moved ∙ ap (λ t. (hole + word - t) % word) (extent_of-first ps) in
    odd_place p.p_paddr hole (even p.p_paddr page)
      (multiple-IsEven ok.roundable.bits (sane_align m q.align) hole ok.roundable.power wide
        there.aligned)
      (subst (λ t. IsEven ((p.p_paddr + t) % word)) shift at_base)
