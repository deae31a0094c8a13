-- ===== src/Examples/Elf.antt =====
-- A small executable: one header, one program header, four bytes of program.
use monoimage.Prelude.{
  ℕ, ap, ◌⊎◌, inl, inr, ◌+◌, ◌*◌, ◌%◌, ◌≤◌, ◌≡◌, ◌≢◌, ◌↔◌, refl, sym, ◌∙◌, subst, some, none, List,
  [], ◌∷◌, ◌++◌, Bytes, length, All, arith,
}
use monoimage.CStr.{strcmp_eq}
use monoimage.Kexec.{word, KexecSegment, KexecInfo, returned}
use monoimage.Kexec.Add.{add_segment, last_byte, round_to_page, append_segment}
use monoimage.Kexec.Range.{valid_memory_range, is_ram}
use monoimage.Kexec.Hole.{Request, mask_down, sane_align}
use monoimage.Kexec.Hole.Locate.{IsServable}
use monoimage.Kexec.Elf.Info.{build_elf_info}
use monoimage.Kexec.Elf.Notes.{
  NoteHeader, note_size, find_in_phdrs, find_in_shdrs, read_nhdr, build_mem_notes,
}
use monoimage.Kexec.Elf.Walk.{Reaches, HasShortNotes, find_notes, build_mem_notes-ends}
use monoimage.Kexec.Elf.Exec.{extent_of, dyn_request, elf_exec_load}
use monoimage.Kexec.Elf.Exec.Dynamic.{elf_exec_load-dynamic}
use monoimage.Kexec.Elf.{ElfFile, parsed, parsed_inj, faults, endless, MemPhdr, MemEhdr}
use monoimage.Kexec.Elf.Tables.{build_mem_phdrs, phdr_size_of}
use monoimage.Kexec.Elf.Within.{build_mem_phdrs-faults_iff}
use monoimage.Kexec.Elf.Exec.{elf_exec_build_load}
use monoimage.Kexec.Elf.Exec.Loaded.{CopiesFrom, elf_exec_build_load-AreLoaded}
use monoimage.Kexec.Elf.Exec.Segments.{AreLoaded}
use monoimage.Examples.Kexec.{machine, machine-IsPaged}

abbrev pub ident : Bytes
ident = 127 ∷ 69 ∷ 76 ∷ 70 ∷ 1 ∷ 1 ∷ 1 ∷ 0 ∷ 0 ∷ 0 ∷ 0 ∷ 0 ∷ 0 ∷ 0 ∷ 0 ∷ 0 ∷ []

abbrev pub ehdr_rest : Bytes
ehdr_rest =
    2 ∷ 0 ∷ 3 ∷ 0 ∷ 1 ∷ 0 ∷ 0 ∷ 0 ∷ 0 ∷ 32 ∷ 0 ∷ 0 ∷ 52 ∷ 0 ∷ 0 ∷ 0 ∷ 0 ∷ 0 ∷ 0 ∷ 0 ∷ 0 ∷ 0 ∷ 0 ∷ 0
    ∷ 52 ∷ 0 ∷ 32 ∷ 0 ∷ 1 ∷ 0 ∷ 0 ∷ 0 ∷ 0 ∷ 0 ∷ 0 ∷ 0 ∷ []

abbrev pub phdr_bytes : Bytes
phdr_bytes =
    1 ∷ 0 ∷ 0 ∷ 0 ∷ 84 ∷ 0 ∷ 0 ∷ 0 ∷ 0 ∷ 32 ∷ 0 ∷ 0 ∷ 0 ∷ 32 ∷ 0 ∷ 0 ∷ 4 ∷ 0 ∷ 0 ∷ 0 ∷ 100 ∷ 0 ∷ 0
    ∷ 0 ∷ 5 ∷ 0 ∷ 0 ∷ 0 ∷ 0 ∷ 16 ∷ 0 ∷ 0 ∷ []

abbrev pub program : ElfFile
program = record {
  buf = ident ++ (ehdr_rest ++ (phdr_bytes ++ 144 ∷ 144 ∷ 144 ∷ 244 ∷ []));
  address = 65536;
}

abbrev pub empty_info : KexecInfo
empty_info = record { segment = []; entry = 0 }

abbrev text_phdr : MemPhdr
text_phdr = record {
  p_paddr = 8192;
  p_vaddr = 8192;
  p_filesz = 4;
  p_memsz = 100;
  p_offset = 84;
  p_data = 65620;
  p_type = 1;
  p_flags = 5;
  p_align = 4096;
}

abbrev program_ehdr : MemEhdr
program_ehdr = record {
  ei_class = 1;
  ei_data = 1;
  e_type = 2;
  e_machine = 3;
  e_version = 1;
  e_flags = 0;
  e_phnum = 1;
  e_shnum = 0;
  e_shstrndx = 0;
  e_entry = 8192;
  e_phoff = 52;
  e_shoff = 0;
  e_phdr = some (text_phdr ∷ []);
  e_shdr = none;
  e_note = [];
}

abbrev text_segment : KexecSegment
text_segment = record { buf = 65620; bufsz = 4; mem = 8192; memsz = 4096 }

abbrev with_text : KexecInfo
with_text = record { segment = text_segment ∷ []; entry = 0 }

-- The program is loaded.
program_loaded : elf_exec_build_load 1 machine empty_info program ≡ parsed (program_ehdr, with_text)
unfolding elf_exec_build_load build_elf_info strcmp_eq add_segment valid_memory_range last_byte
    round_to_page mask_down append_segment
program_loaded = refl

elf_exec_build_load-AreLoaded_example :
    (length (text_phdr ∷ []) ≡ 1)
    × All (λ p. p.p_type ≢ 3) (text_phdr ∷ [])
    × ((new : List KexecSegment) × (with_text.segment ≡ [] ++ new)
        × AreLoaded machine (text_phdr ∷ []) new
        × All (CopiesFrom program) new)
elf_exec_build_load-AreLoaded_example =
    elf_exec_build_load-AreLoaded 1 machine empty_info with_text program program_ehdr
      (text_phdr ∷ []) machine-IsPaged (omega arith) (λ e. absurd (omega (arith, e))) refl
      ((omega arith, omega arith), tt) program_loaded

-- The table of program headers begins 16 bytes in front of the end of the address space.
abbrev wrapping_ehdr : MemEhdr
wrapping_ehdr = record program_ehdr { e_phoff = 4294967280; e_phdr = none }

build_mem_phdrs-faults_iff_example : (build_mem_phdrs program wrapping_ehdr ≡ faults) ↔ (
    (word ≤ 4294967280 + phdr_size_of 1 * 1)
    × ((4294967280 + phdr_size_of 1 * 1) % word ≤ length program.buf))
build_mem_phdrs-faults_iff_example =
    build_mem_phdrs-faults_iff program wrapping_ehdr refl (omega arith) (omega arith) (omega arith)

abbrev dynamic_ehdr : MemEhdr
dynamic_ehdr = record program_ehdr { e_type = 3 }

abbrev dynamic_request : Request
dynamic_request = dyn_request dynamic_ehdr (extent_of (text_phdr ∷ []))

dynamic-IsServable : IsServable machine dynamic_request
unfolding is_ram sane_align dyn_request extent_of
dynamic-IsServable = record {
  low = ((λ e. (omega arith, omega arith)), ((λ e. (omega arith, omega arith)), tt));
  ascending = (
    (λ e. (omega arith, ((λ f. absurd (ground (arith, f))), tt))),
    ((λ e. absurd (ground (arith, e))), tt),
  );
  ends_low = ((λ e. omega arith), ((λ e. omega arith), tt));
  roundable = record {
    bits = 12;
    others = 20;
    total = refl;
    power = refl;
    min_low = omega arith;
    least_low = omega arith;
  };
}

elf_exec_load-dynamic_example :
    elf_exec_load machine dynamic_ehdr empty_info ≢ returned (some with_text)
elf_exec_load-dynamic_example =
    elf_exec_load-dynamic machine dynamic_ehdr empty_info with_text [] text_phdr [] machine-IsPaged
      (omega arith) dynamic-IsServable tt tt refl refl refl (λ e. absurd (omega (arith, e)))
      (2, refl)

-- A file with the mark of ELF and one note behind it.
abbrev noted : ElfFile
noted = record {
  buf = 127 ∷ 69 ∷ 76 ∷ 70 ∷ 0 ∷ 0 ∷ 0 ∷ 0 ∷ 0 ∷ 0 ∷ 0 ∷ 0 ∷ 1 ∷ 0 ∷ 0 ∷ 0 ∷ [];
  address = 4096;
}

abbrev empty_note : NoteHeader
empty_note = record { n_namesz = 0; n_descsz = 0; n_type = 1 }

noted_read : read_nhdr noted 1 4100 ≡ parsed empty_note
unfolding read_nhdr
noted_read = refl

noted_next : (4100 + note_size empty_note) % 4294967296 ≡ 4112
unfolding note_size
noted_next = refl

-- There is one note.
noted_once : (note : ℕ) → Reaches noted 1 4100 4112 note → (note ≡ 4100) ⊎ (4112 ≤ note)
noted_once note Reaches.first = inl refl
noted_once note (Reaches.next at hdr there inside h) = elim (noted_once at there) [
  | inr behind ↦ absurd (omega (arith, behind, inside))
  | inl same ↦
      let which : parsed empty_note ≡ parsed hdr =
        sym noted_read ∙ subst (λ t. read_nhdr noted 1 t ≡ parsed hdr) same h in
      let sized : note_size hdr ≡ note_size empty_note = ap note_size (sym (parsed_inj which)) in
      inr (omega (arith, noted_next, same, sized))
]

noted-HasShortNotes : HasShortNotes noted 1 4100 4112
noted-HasShortNotes note hdr there inside e = elim (noted_once note there) [
  | inr behind ↦ absurd (omega (arith, behind, inside))
  | inl same ↦
      let which : parsed empty_note ≡ parsed hdr =
        sym noted_read ∙ subst (λ t. read_nhdr noted 1 t ≡ parsed hdr) same e in
      ground (arith, which)
]

abbrev note_phdr : MemPhdr
note_phdr = record text_phdr { p_type = 4; p_filesz = 12; p_offset = 4; p_data = 4100 }

abbrev noted_ehdr : MemEhdr
noted_ehdr = record program_ehdr { e_phdr = some (note_phdr ∷ []) }

noted_found : find_notes noted_ehdr ≡ parsed (4100, 4112)
unfolding find_in_phdrs find_in_shdrs
noted_found = refl

noted_short :
    (start end : ℕ) → find_notes noted_ehdr ≡ parsed (start, end) → HasShortNotes noted 1 start end
noted_short start end h =
    let same : (4100, 4112) ≡ (start, end) = parsed_inj (sym noted_found ∙ h) in
    subst (λ (t : ℕ × ℕ). HasShortNotes noted 1 t.0 t.1) same noted-HasShortNotes

build_mem_notes-ends_example : build_mem_notes 5000 noted noted_ehdr ≢ endless
build_mem_notes-ends_example =
    build_mem_notes-ends 5000 noted noted_ehdr (omega arith) noted_short (omega arith)
