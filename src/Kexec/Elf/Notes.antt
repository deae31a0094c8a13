-- ===== src/Kexec/Elf/Notes.antt =====
-- kexec-tools/kexec/kexec-elf.c: `build_mem_notes`. A place in the notes is an address; what is read
-- outside the buffer faults. The two walks have fuel.
use monoimage.Prelude.{
  ℕ, zero, suc, ◌+◌, ◌-◌, ◌*◌, ◌/◌, ◌%◌, Bool, not, ◌&&◌, ◌||◌, none, some, List, [], ◌∷◌, ltb, leb,
  ◌==◌, if◌then◌else◌, Bytes, length, drop, get_or,
}
use monoimage.Image.{field_at}
use monoimage.Kexec.{word, note_not_terminated}
use monoimage.Kexec.Elf.{
  ElfFile, Parsed, parsed, faults, exits, endless, ◌>>=◌, MemPhdr, MemShdr, MemNote, MemEhdr,
}
use monoimage.Kexec.Elf.Layout.{elf32_to_cpu}

-- ElfNN_Nhdr
pub record NoteHeader : Type 0 where
  pub n_namesz : ℕ
  pub n_descsz : ℕ
  pub n_type : ℕ

-- Do `n` bytes from the address on lie in the buffer?
abbrev pub inside : ElfFile → (address n : ℕ) → Bool
inside f address n = leb f.address address && leb (address + n) (f.address + length f.buf)

unfoldable pub nhdr_at : (ei_data : ℕ) → Bytes → NoteHeader
unfolding field_at elf32_to_cpu
nhdr_at ei_data note = record {
  n_namesz = elf32_to_cpu ei_data (field_at 0 4 note);
  n_descsz = elf32_to_cpu ei_data (field_at 4 4 note);
  n_type = elf32_to_cpu ei_data (field_at 8 4 note);
}

unfoldable pub read_nhdr : ElfFile → (ei_data note : ℕ) → Parsed NoteHeader
unfolding nhdr_at
read_nhdr f ei_data note =
    if inside f note 12 then parsed (nhdr_at ei_data (drop (note - f.address) f.buf)) else faults

-- `(n + 3) & ~3` on 32 bits
abbrev pub round4 : ℕ → ℕ
round4 n = (n + 3) % word / 4 * 4

unfoldable pub note_size : NoteHeader → ℕ
note_size hdr = (12 + round4 hdr.n_namesz + round4 hdr.n_descsz) % word

-- The first walk
unfoldable pub count_notes : (fuel : ℕ) → ElfFile → (ei_data note note_end : ℕ) → Parsed ℕ
unfolding read_nhdr note_size
count_notes zero f ei_data note note_end = endless
count_notes (suc fuel) f ei_data note note_end =
    let more : Parsed ℕ = do
      hdr ← read_nhdr f ei_data note
      n ← count_notes fuel f ei_data ((note + note_size hdr) % word) note_end
      parsed (n + 1)
    in if ltb note note_end then more else parsed 0

-- The last byte of the name, if there is one, is NUL.
unfoldable pub check_name : ElfFile → (name n_namesz : ℕ) → Parsed ℕ
check_name f name n_namesz =
    let last = (name + n_namesz + word - 1) % word in
    if n_namesz == 0
    then parsed name
    else if not (inside f last 1)
    then faults
    else if get_or f.buf (last - f.address) 0 == 0
    then parsed name
    else exits note_not_terminated

-- The second walk
unfoldable pub normalize_notes :
    (fuel : ℕ) → ElfFile → (ei_data note note_end : ℕ) → Parsed (List MemNote)
unfolding read_nhdr note_size check_name
normalize_notes zero f ei_data note note_end = endless
normalize_notes (suc fuel) f ei_data note note_end =
    let more : Parsed (List MemNote) = do
      hdr ← read_nhdr f ei_data note
      name ← check_name f ((note + 12) % word) hdr.n_namesz
      rest ← normalize_notes fuel f ei_data ((note + note_size hdr) % word) note_end
      parsed (
          record {
            n_type = hdr.n_type;
            n_name = name;
            n_desc = (note + 12 + round4 hdr.n_namesz) % word;
            n_descsz = hdr.n_descsz;
          }
          ∷ rest)
    in if ltb note note_end then more else parsed []

-- The loops that look for PT_NOTE and SHT_NOTE, with `note_start` and `note_end`. They go on while
-- `note_start` is NULL.
unfoldable pub note_phdr : List MemPhdr → (start end : ℕ) → ℕ × ℕ
note_phdr [] start end = (start, end)
note_phdr (p ∷ ps) start end =
    let is_note = p.p_type == 4 in
    let next =
      note_phdr ps (if is_note then p.p_data else start)
        (if is_note then (p.p_data + p.p_filesz) % word else end) in
    if start == 0 then next else (start, end)

unfoldable pub note_shdr : List MemShdr → (start end : ℕ) → ℕ × ℕ
note_shdr [] start end = (start, end)
note_shdr (s ∷ ss) start end =
    let is_note = s.sh_type == 7 in
    let next =
      note_shdr ss (if is_note then s.sh_data else start)
        (if is_note then (s.sh_data + s.sh_size) % word else end) in
    if start == 0 then next else (start, end)

-- An entry of a table that is NULL cannot be read.
unfoldable pub find_in_phdrs : MemEhdr → Parsed (ℕ × ℕ)
unfolding note_phdr
find_in_phdrs h = elim h.e_phdr [
  | some ps ↦ parsed (note_phdr ps 0 0)
  | none ↦ if h.e_phnum == 0 then parsed (0, 0) else faults
]

unfoldable pub find_in_shdrs : MemEhdr → (start end : ℕ) → Parsed (ℕ × ℕ)
unfolding note_shdr
find_in_shdrs h start end = elim h.e_shdr [
  | some ss ↦ parsed (note_shdr ss start end)
  | none ↦ if not (start == 0) || h.e_shnum == 0 then parsed (start, end) else faults
]

unfoldable pub walk_notes : (fuel : ℕ) → ElfFile → (ei_data start end : ℕ) → Parsed (List MemNote)
unfolding count_notes normalize_notes
walk_notes fuel f ei_data start end = do
  n ← count_notes fuel f ei_data start end
  normalize_notes fuel f ei_data start end

unfoldable pub build_mem_notes : (fuel : ℕ) → ElfFile → MemEhdr → Parsed (List MemNote)
unfolding find_in_phdrs find_in_shdrs walk_notes
build_mem_notes fuel f h = do
  (start, end) ← find_in_phdrs h
  (start', end') ← find_in_shdrs h start end
  if start' == 0 then parsed [] else walk_notes fuel f h.ei_data start' end'
