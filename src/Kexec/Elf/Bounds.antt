-- ===== src/Kexec/Elf/Bounds.antt =====
-- What holds of every program header that `build_elf_info` has accepted.
use monoimage.Prelude.{
  ℕ, zero, suc, ◌+◌, ◌*◌, ◌%◌, ◌≤◌, ◌<◌, ◌≡◌, ◌⊎◌, inl, inr, refl, ap, subst, Bool, true, false,
  not, ◌&&◌, some, none, List, [], ◌∷◌, ltb, ◌==◌, if◌then◌else◌, arith, Bytes, get_or, length,
  take, drop, All, Bool-cases,
}
use monoimage.CStr.{strcmp_eq}
use monoimage.Kexec.{word}
use monoimage.Kexec.Elf.{
  ElfFile, Parsed, parsed, rejected, faults, ◌>>=◌, >>=-eq-parsed, parsed_inj, MemPhdr, MemEhdr,
}
use monoimage.Kexec.Elf.Tables.{
  elfmag, all_fit, fitting_phdr, fill_phdr, checked_ehdr, build_mem_elf32_ehdr,
  build_mem_elf64_ehdr, check_version, build_mem_phdr, build_mem_elf32_phdr, build_mem_elf64_phdr,
  check_phdr, phdr_loop, build_mem_phdrs, build_mem_ehdr, build_mem_shdrs,
}
use monoimage.Kexec.Elf.Layout.{
  elfclass32, elfclass64, elfdata2lsb, elfdata2msb, class32, class64, elf32_ehdr, elf64_ehdr,
  elf32_phdr, elf64_phdr, FileEhdr, ElfClass,
}
use monoimage.Kexec.Elf.Notes.{build_mem_notes}
use monoimage.Kexec.Elf.Info.{with_phdrs, with_shdrs, with_notes, build_elf_info}

-- The numbers are words, the memory of the segment does not wrap, its bytes begin at the offset, and
-- the end of the bytes, as a word, is in the file.
pub record IsChecked (f : ElfFile) (p : MemPhdr) : Type 0 where
  pub words : (p.p_offset < word) × (p.p_filesz < word) × (p.p_paddr < word) × (p.p_memsz < word)
  pub in_memory : p.p_paddr + p.p_memsz < word
  pub in_file : (p.p_offset + p.p_filesz) % word ≤ length f.buf
  pub at_offset : p.p_data ≡ (f.address + p.p_offset) % word

abbrev Fits : MemPhdr → Type 0
Fits p = (p.p_offset < word) × (p.p_filesz < word) × (p.p_paddr < word) × (p.p_memsz < word)

fitting_phdr-Fits : (p q : MemPhdr) → fitting_phdr p ≡ parsed q → Fits q
unfolding fitting_phdr all_fit
fitting_phdr-Fits p q h = ground arith

read-Fits : (b : Bool) (p q : MemPhdr) → (if b then faults else fitting_phdr p) ≡ parsed q → Fits q
read-Fits true p q h = absurd (ground arith)
read-Fits false p q h = fitting_phdr-Fits p q h

build_mem_elf32_phdr-Fits :
    (f : ElfFile) (h : MemEhdr) (idx : ℕ) (p : MemPhdr)
    → build_mem_elf32_phdr f h idx ≡ parsed p
    → Fits p
unfolding build_mem_elf32_phdr
build_mem_elf32_phdr-Fits f h idx p e =
    let at = h.e_phoff + idx * class32.phdr_size in
    read-Fits (ltb (length f.buf) (at + class32.phdr_size))
      (fill_phdr class32 h.ei_data (elf32_phdr (drop at f.buf))) p e

build_mem_elf64_phdr-Fits :
    (f : ElfFile) (h : MemEhdr) (idx : ℕ) (p : MemPhdr)
    → build_mem_elf64_phdr f h idx ≡ parsed p
    → Fits p
unfolding build_mem_elf64_phdr
build_mem_elf64_phdr-Fits f h idx p e =
    let at = h.e_phoff + idx * class64.phdr_size in
    read-Fits (ltb (length f.buf) (at + class64.phdr_size))
      (fill_phdr class64 h.ei_data (elf64_phdr (drop at f.buf))) p e

build_mem_phdr-Fits :
    (f : ElfFile) (h : MemEhdr) (idx : ℕ) (p : MemPhdr) → build_mem_phdr f h idx ≡ parsed p → Fits p
unfolding build_mem_phdr
build_mem_phdr-Fits f h idx p e =
    ground (arith, build_mem_elf32_phdr-Fits f h idx p, build_mem_elf64_phdr-Fits f h idx p)

check_phdr-IsChecked :
    (f : ElfFile) (p q : MemPhdr) → Fits p → check_phdr f p ≡ parsed q → IsChecked f q
unfolding check_phdr
check_phdr-IsChecked f p q fits e = ground arith

-- The loop reads as many headers as it is asked for, and checks each of them.
phdr_loop-IsChecked :
    (f : ElfFile) (h : MemEhdr) (left idx : ℕ) (ps : List MemPhdr)
    → phdr_loop f h left idx ≡ parsed ps
    → (length ps ≡ left) × All (IsChecked f) ps
unfolding phdr_loop
phdr_loop-IsChecked f h zero idx [] e = (refl, tt)
phdr_loop-IsChecked f h zero idx (p ∷ ps) e = absurd (ground arith)
phdr_loop-IsChecked f h (suc left) idx ps e =
    let (p, read, e₁) = >>=-eq-parsed (build_mem_phdr f h idx) _ e in
    let (q, checked, e₂) = >>=-eq-parsed (check_phdr f p) _ e₁ in
    let (rest, looped, e₃) = >>=-eq-parsed (phdr_loop f h left (idx + 1)) _ e₂ in
    let (len, all) = phdr_loop-IsChecked f h left (idx + 1) rest looped in
    let whole : q ∷ rest ≡ ps = ground (arith, e₃) in
    subst (λ t. (length t ≡ suc left) × All (IsChecked f) t) whole
      (ap suc len, (check_phdr-IsChecked f p q (build_mem_phdr-Fits f h idx p read) checked, all))

build_mem_phdrs-IsChecked :
    (f : ElfFile) (h : MemEhdr) (ps : List MemPhdr)
    → build_mem_phdrs f h ≡ parsed ps
    → (length ps ≡ h.e_phnum) × All (IsChecked f) ps
unfolding build_mem_phdrs
build_mem_phdrs-IsChecked f h ps e = phdr_loop-IsChecked f h h.e_phnum 0 ps (ground (arith, e))

-- The table of program headers of a header: none, or a checked one of the length that is stated.
abbrev pub HasTable : ElfFile → MemEhdr → Type 0
HasTable f h =
    (h.e_phdr ≡ none)
    ⊎ ((ps : List MemPhdr) × (h.e_phdr ≡ some ps) × (length ps ≡ h.e_phnum) × All (IsChecked f) ps)

with_phdrs-HasTable :
    (f : ElfFile) (h h' : MemEhdr) → h.e_phdr ≡ none → with_phdrs f h ≡ parsed h' → HasTable f h'
unfolding with_phdrs
with_phdrs-HasTable f h h' new e = elim (Bool-cases (ltb 0 h.e_phoff && ltb 0 h.e_phnum)) [
  | inl table ↦
      let (ps, built, e₁) = >>=-eq-parsed (build_mem_phdrs f h) _ (rw table at e) in
      let (len, all) = build_mem_phdrs-IsChecked f h ps built in
      subst (HasTable f) (parsed_inj e₁) (inr (ps, refl, len, all))
  | inr no_table ↦ subst (HasTable f) (parsed_inj (rw no_table at e)) (inl new)
]

checked_ehdr-fresh :
    (c : ElfClass) (ei_class ei_data : ℕ) (l : FileEhdr) (h : MemEhdr)
    → checked_ehdr c ei_class ei_data l ≡ parsed h
    → h.e_phdr ≡ none
unfolding checked_ehdr
checked_ehdr-fresh c ei_class ei_data l h e = ground arith

build_mem_elf32_ehdr-fresh :
    (buf : Bytes) (ei_class ei_data : ℕ) (h : MemEhdr)
    → build_mem_elf32_ehdr buf ei_class ei_data ≡ parsed h
    → h.e_phdr ≡ none
unfolding build_mem_elf32_ehdr
build_mem_elf32_ehdr-fresh buf ei_class ei_data h e =
    ground (arith, checked_ehdr-fresh class32 ei_class ei_data (elf32_ehdr buf) h)

build_mem_elf64_ehdr-fresh :
    (buf : Bytes) (ei_class ei_data : ℕ) (h : MemEhdr)
    → build_mem_elf64_ehdr buf ei_class ei_data ≡ parsed h
    → h.e_phdr ≡ none
unfolding build_mem_elf64_ehdr
build_mem_elf64_ehdr-fresh buf ei_class ei_data h e =
    ground (arith, checked_ehdr-fresh class64 ei_class ei_data (elf64_ehdr buf) h)

check_version-same :
    (ei_version : ℕ) (h h' : MemEhdr) → check_version ei_version h ≡ parsed h' → h ≡ h'
unfolding check_version
check_version-same v h h' e = ground arith

built-fresh :
    (b : Bool) (buf : Bytes) (ei_class ei_data v : ℕ) (h : MemEhdr)
    → ((if b
          then build_mem_elf32_ehdr buf ei_class ei_data
          else build_mem_elf64_ehdr buf ei_class ei_data)
        >>= check_version v)
      ≡ parsed h
    → h.e_phdr ≡ none
built-fresh true buf ei_class ei_data v h e =
    let (h₀, built, checked) = >>=-eq-parsed (build_mem_elf32_ehdr buf ei_class ei_data) _ e in
    subst (λ t. t.e_phdr ≡ none) (check_version-same v h₀ h checked)
      (build_mem_elf32_ehdr-fresh buf ei_class ei_data h₀ built)
built-fresh false buf ei_class ei_data v h e =
    let (h₀, built, checked) = >>=-eq-parsed (build_mem_elf64_ehdr buf ei_class ei_data) _ e in
    subst (λ t. t.e_phdr ≡ none) (check_version-same v h₀ h checked)
      (build_mem_elf64_ehdr-fresh buf ei_class ei_data h₀ built)

-- What is parsed has passed the four tests in front.
past_tests {ℓ} :
    {A : Type ℓ} {a : A} (b₁ b₂ b₃ b₄ : Bool) (m : Parsed A)
    → (if b₁
        then rejected
        else if b₂
        then rejected
        else if b₃
        then rejected
        else if b₄
        then rejected
        else m)
      ≡ parsed a
    → m ≡ parsed a
past_tests true b₂ b₃ b₄ m e = absurd (ground arith)
past_tests false true b₃ b₄ m e = absurd (ground arith)
past_tests false false true b₄ m e = absurd (ground arith)
past_tests false false false true m e = absurd (ground arith)
past_tests false false false false m e = e

-- A header that was just read has no tables.
build_mem_ehdr-fresh :
    (f : ElfFile) (h : MemEhdr) → build_mem_ehdr f.buf ≡ parsed h → h.e_phdr ≡ none
unfolding build_mem_ehdr
build_mem_ehdr-fresh f h e =
    built-fresh (get_or f.buf 4 0 == 1) f.buf (get_or f.buf 4 0) (get_or f.buf 5 0)
      (get_or f.buf 6 0) h
      (past_tests (ltb (length f.buf) 16) (not (strcmp_eq (take 4 f.buf) elfmag))
        (not (get_or f.buf 4 0 == elfclass32) && not (get_or f.buf 4 0 == elfclass64))
        (not (get_or f.buf 5 0 == elfdata2lsb) && not (get_or f.buf 5 0 == elfdata2msb)) _ e)

with_shdrs-HasTable :
    (f : ElfFile) (h h' : MemEhdr) → with_shdrs f h ≡ parsed h' → HasTable f h → HasTable f h'
unfolding with_shdrs
with_shdrs-HasTable f h h' e t = elim (Bool-cases (ltb 0 h.e_shoff && ltb 0 h.e_shnum)) [
  | inl table ↦
      let (ss, built, e₁) = >>=-eq-parsed (build_mem_shdrs f h) _ (rw table at e) in
      subst (HasTable f) (parsed_inj e₁) t
  | inr no_table ↦ subst (HasTable f) (parsed_inj (rw no_table at e)) t
]

with_notes-HasTable :
    (fuel : ℕ) (f : ElfFile) (h h' : MemEhdr)
    → with_notes fuel f h ≡ parsed h'
    → HasTable f h
    → HasTable f h'
unfolding with_notes
with_notes-HasTable fuel f h h' e t =
    let (notes, built, e₁) = >>=-eq-parsed (build_mem_notes fuel f h) _ e in
    subst (HasTable f) (parsed_inj e₁) t

-- Where `build_elf_info` succeeds, the table of program headers is NULL or it has as many headers as
-- the file says, each of them checked.
pub build_elf_info-HasTable :
    (fuel : ℕ) (f : ElfFile) (h : MemEhdr) → build_elf_info fuel f ≡ parsed h → HasTable f h
unfolding build_elf_info
build_elf_info-HasTable fuel f h e =
    let (h₀, read, e₁) = >>=-eq-parsed (build_mem_ehdr f.buf) _ e in
    let (h₁, phdrs, e₂) = >>=-eq-parsed (with_phdrs f h₀) _ e₁ in
    let (h₂, shdrs, e₃) = >>=-eq-parsed (with_shdrs f h₁) _ e₂ in
    with_notes-HasTable fuel f h₂ h e₃ (
      with_shdrs-HasTable f h₁ h₂ shdrs
        (with_phdrs-HasTable f h₀ h₁ (build_mem_ehdr-fresh f h₀ read) phdrs))
