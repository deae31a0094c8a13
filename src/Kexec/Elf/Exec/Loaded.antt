-- ===== src/Kexec/Elf/Exec/Loaded.antt =====
-- From the bytes of an executable that is not dynamic to the segments.
use monoimage.Prelude.{
  ℕ, ◌+◌, ◌≤◌, ◌<◌, ◌≡◌, ◌≢◌, inl, inr, ap, subst, false, Option, some, none, List, [], ◌∷◌, ◌++◌,
  ◌==◌, arith, All, length,
}
use monoimage.Kexec.{word, KexecSegment, KexecInfo, Machine, Outcome, returned, died, Outcome-cases}
use monoimage.Kexec.Add.Laws.{IsPaged, IsNew}
use monoimage.Kexec.Elf.{
  ElfFile, Parsed, parsed, rejected, faults, exits, endless, >>=-eq-parsed, parsed_inj, MemPhdr,
  MemEhdr,
}
use monoimage.Kexec.Elf.Info.{build_elf_info}
use monoimage.Kexec.Elf.Bounds.{IsChecked, HasTable, build_elf_info-HasTable}
use monoimage.Kexec.Elf.Exec.{
  et_dyn, pt_interp, has_interp, check_exec, build_elf_exec_info, load_loop, load_at, load_phdrs,
  elf_exec_load, after_exec_load, parsed_or_die, elf_exec_build_load,
}
use monoimage.Kexec.Elf.Exec.Segments.{
  AreLoaded, none_left, skipped, loaded, HasRoom, copied, load_loop-AreLoaded,
}

-- The segment is copied from bytes of the file.
abbrev pub CopiesFrom : ElfFile → KexecSegment → Type 0
CopiesFrom f s = (f.address ≤ s.buf) × (s.buf + s.bufsz ≤ f.address + length f.buf)

-- The end of the header's bytes does not wrap, and its size can be rounded up to a page.
abbrev pub IsPlain : Machine → MemPhdr → Type 0
IsPlain m p = (p.p_offset + p.p_filesz < word) × (p.p_memsz + m.page_size ≤ word)

new-CopiesFrom :
    (m : Machine) (f : ElfFile) (p : MemPhdr) (s : KexecSegment)
    → f.address + length f.buf < word
    → IsChecked f p
    → IsPlain m p
    → IsNew m p.p_data (copied p) p.p_paddr p.p_memsz s
    → CopiesFrom f s
new-CopiesFrom m f p s small c plain n =
    let start = n.at_base.0 in
    let from = c.at_offset in let within = c.in_file in let few = n.contents.0 in ground arith

AreLoaded-CopiesFrom :
    (m : Machine) (f : ElfFile) (ps : List MemPhdr) (ss : List KexecSegment)
    → f.address + length f.buf < word
    → All (IsChecked f) ps
    → All (IsPlain m) ps
    → AreLoaded m ps ss
    → All (CopiesFrom f) ss
AreLoaded-CopiesFrom m f _ _ small c plain none_left = tt
AreLoaded-CopiesFrom m f _ _ small c plain (skipped {ps} {ss} _ l) =
    AreLoaded-CopiesFrom m f ps ss small c.1 plain.1 l
AreLoaded-CopiesFrom m f _ _ small c plain (loaded {p} {ps} {s} {ss} _ n l) =
    (new-CopiesFrom m f p s small c.0 plain.0 n, AreLoaded-CopiesFrom m f ps ss small c.1 plain.1 l)

has_interp-All : (ps : List MemPhdr) → has_interp ps ≡ false → All (λ p. p.p_type ≢ pt_interp) ps
unfolding has_interp
has_interp-All [] h = tt
has_interp-All (p ∷ ps) h = ((λ e. absurd (ground arith)), has_interp-All ps (ground arith))

-- What `check_exec` has seen.
check_exec_sound :
    (h h' : MemEhdr) (ps : List MemPhdr)
    → check_exec h ≡ parsed h'
    → h'.e_phdr ≡ some ps
    → (h ≡ h') × (has_interp ps ≡ false)
unfolding check_exec
check_exec_sound h h' ps e t = ground arith

parsed_or_die-parsed :
    (r : Parsed MemEhdr) (h : MemEhdr) → parsed_or_die r ≡ parsed h → r ≡ parsed h
unfolding parsed_or_die
parsed_or_die-parsed (parsed a) h e = e
parsed_or_die-parsed rejected h e = absurd (ground arith)
parsed_or_die-parsed faults h e = absurd (ground arith)
parsed_or_die-parsed (exits d) h e = absurd (ground arith)
parsed_or_die-parsed endless h e = absurd (ground arith)

after_exec_load-parsed :
    (h h' : MemEhdr) (o : Outcome (Option KexecInfo)) (info : KexecInfo)
    → after_exec_load h o ≡ parsed (h', info)
    → (h ≡ h') × (o ≡ returned (some info))
unfolding after_exec_load
after_exec_load-parsed h h' (died d) info e = absurd (ground arith)
after_exec_load-parsed h h' (returned none) info e = absurd (ground arith)
after_exec_load-parsed h h' (returned (some i)) info e =
    (ap (λ x. x.0) (parsed_inj e), ap (λ x. returned (some x.1)) (parsed_inj e))

load_at-loop :
    (m : Machine) (info info' : KexecInfo) (ps : List MemPhdr)
    → load_at m info ps (some 0) ≡ returned (some info')
    → load_loop m 0 info ps ≡ returned info'
unfolding load_at
load_at-loop m info info' ps e = elim (Outcome-cases (load_loop m 0 info ps)) [
  | inl (i, l) ↦ ground (arith, l, e)
  | inr (d, l) ↦ absurd (ground (arith, l, e))
]

load_phdrs-fixed :
    (m : Machine) (h : MemEhdr) (info : KexecInfo) (ps : List MemPhdr) {r : Option KexecInfo}
    → h.e_type ≢ et_dyn
    → load_phdrs m h ps info ≡ returned r
    → load_at m info ps (some 0) ≡ returned r
unfolding load_phdrs
load_phdrs-fixed m h info ps ne e =
    let fixed : (h.e_type == et_dyn) ≡ false = ground (arith, ne) in rw fixed at e

-- The loading of an executable that is not dynamic is the loop at the addresses of the file.
elf_exec_load-fixed :
    (m : Machine) (h : MemEhdr) (info info' : KexecInfo) (ps : List MemPhdr)
    → h.e_phdr ≡ some ps
    → h.e_type ≢ et_dyn
    → elf_exec_load m h info ≡ returned (some info')
    → load_loop m 0 info ps ≡ returned info'
unfolding elf_exec_load
elf_exec_load-fixed m h info info' ps t ne e =
    load_at-loop m info info' ps (load_phdrs-fixed m h info ps ne (rw t at e))

table_of :
    (f : ElfFile) (h : MemEhdr) (ps : List MemPhdr)
    → HasTable f h
    → h.e_phdr ≡ some ps
    → (length ps ≡ h.e_phnum) × All (IsChecked f) ps
table_of f h ps (inl n) t = absurd (ground (arith, n, t))
table_of f h ps (inr (qs, s, len, all)) t =
    let same : qs ≡ ps = ground (arith, s, t) in
    subst (λ l. (length l ≡ h.e_phnum) × All (IsChecked f) l) same (len, all)

All-HasRoom :
    (m : Machine) (f : ElfFile) (ps : List MemPhdr)
    → All (IsChecked f) ps
    → All (IsPlain m) ps
    → All (HasRoom m) ps
All-HasRoom m f [] c plain = tt
All-HasRoom m f (p ∷ ps) c plain =
    let w = c.0.words in ((w.2, plain.0.1), All-HasRoom m f ps c.1 plain.1)

-- Pages are a power of two; the end of no header's bytes in the file wraps, and every size can be
-- rounded up. Where `elf_exec_build_load` then returns for an executable that is not dynamic, it has read
-- as many program headers as the file states, none of which asks for an interpreter. It has added to
-- the segments one for each header of a segment to load that is not empty, in the order of the headers,
-- at the address and of the size, rounded up to a page, of the header, and copied from bytes of the file.
-- Each lies in ranges of RAM as kexec reads them, which is with bounds that are cut to 32 bits.
pub elf_exec_build_load-AreLoaded :
    (fuel : ℕ) (m : Machine) (info info' : KexecInfo) (f : ElfFile) (h : MemEhdr)
    (ps : List MemPhdr)
    → IsPaged m
    → f.address + length f.buf < word
    → h.e_type ≢ et_dyn
    → h.e_phdr ≡ some ps
    → All (IsPlain m) ps
    → elf_exec_build_load fuel m info f ≡ parsed (h, info')
    → (length ps ≡ h.e_phnum)
      × All (λ p. p.p_type ≢ pt_interp) ps
      × ((new : List KexecSegment) × (info'.segment ≡ info.segment ++ new)
          × AreLoaded m ps new
          × All (CopiesFrom f) new)
unfolding elf_exec_build_load
elf_exec_build_load-AreLoaded fuel m info info' f h ps paged small ne t plain e =
    let (h₀, built, e₁) = >>=-eq-parsed (parsed_or_die (build_elf_exec_info fuel f)) _ e in
    let (same, loads) = after_exec_load-parsed h₀ h (elf_exec_load m h₀ info) info' e₁ in
    let (h₁, info_read, checked) = >>=-eq-parsed (build_elf_info fuel f) _ (
      unfold build_elf_exec_info in (parsed_or_die-parsed (build_elf_exec_info fuel f) h₀ built)) in
    let (kept, no_interp) =
      check_exec_sound h₁ h ps (subst (λ t. check_exec h₁ ≡ parsed t) same checked) t in
    let (len, all) =
      table_of f h ps (subst (HasTable f) kept (build_elf_info-HasTable fuel f h₁ info_read)) t in
    let (new, made, l) = load_loop-AreLoaded m info info' ps paged (All-HasRoom m f ps all plain) (
      elf_exec_load-fixed m h info info' ps t ne
        (subst (λ t. elf_exec_load m t info ≡ returned (some info')) same loads)) in
    (
      len,
      has_interp-All ps no_interp,
      (new, made, l, AreLoaded-CopiesFrom m f ps new small all plain l),
    )
