-- ===== src/Kexec/Elf/Tables.antt =====
-- kexec-tools/kexec/kexec-elf.c: `build_mem_ehdr`, `build_mem_phdrs` and `build_mem_shdrs` with what
-- they call. The sums of offsets are of an `unsigned long` and wrap. An entry of a table outside the
-- buffer cannot be read.
use monoimage.Prelude.{
  ℕ, zero, suc, ◌+◌, ◌*◌, ◌%◌, Bool, true, not, ◌&&◌, ◌||◌, none, List, [], ◌∷◌, ltb, ◌==◌,
  if◌then◌else◌, Bytes, length, take, drop, get_or,
}
use monoimage.CStr.{strcmp_eq}
use monoimage.Kexec.{word, ulong_max}
use monoimage.Kexec.Elf.{
  ElfFile, Parsed, parsed, rejected, faults, ◌>>=◌, MemPhdr, MemShdr, MemEhdr,
}
use monoimage.Kexec.Elf.Layout.{
  elfclass32, elfclass64, elfdata2lsb, elfdata2msb, ev_current, elf_to_cpu, elf16_to_cpu,
  elf32_to_cpu, ElfClass, class32, class64, FileEhdr, elf32_ehdr, elf64_ehdr, FilePhdr, elf32_phdr,
  elf64_phdr, FileShdr, elf32_shdr, elf64_shdr,
}

-- Memory that memset has cleared, with the two bytes of e_ident.
abbrev pub empty_ehdr : (ei_class ei_data : ℕ) → MemEhdr
empty_ehdr ei_class ei_data = record {
  ei_class = ei_class;
  ei_data = ei_data;
  e_type = 0;
  e_machine = 0;
  e_version = 0;
  e_flags = 0;
  e_phnum = 0;
  e_shnum = 0;
  e_shstrndx = 0;
  e_entry = 0;
  e_phoff = 0;
  e_shoff = 0;
  e_phdr = none;
  e_shdr = none;
  e_note = [];
}

-- The assignments. What is assigned to an `unsigned long` loses the bits above 32.
unfoldable pub fill_ehdr : ElfClass → (ei_class ei_data : ℕ) → FileEhdr → MemEhdr
unfolding elf16_to_cpu elf32_to_cpu elf_to_cpu
fill_ehdr c ei_class ei_data l = record (empty_ehdr ei_class ei_data) {
  e_type = elf16_to_cpu ei_data l.e_type;
  e_machine = elf16_to_cpu ei_data l.e_machine;
  e_version = elf32_to_cpu ei_data l.e_version;
  e_entry = elf_to_cpu ei_data c.width l.e_entry % word;
  e_phoff = elf_to_cpu ei_data c.width l.e_phoff % word;
  e_shoff = elf_to_cpu ei_data c.width l.e_shoff % word;
  e_flags = elf32_to_cpu ei_data l.e_flags;
  e_phnum = elf16_to_cpu ei_data l.e_phnum;
  e_shnum = elf16_to_cpu ei_data l.e_shnum;
  e_shstrndx = elf16_to_cpu ei_data l.e_shstrndx;
}

-- Both classes compare what elf32_to_cpu makes of the low 32 bits of the address.
unfoldable pub too_large : (ei_data value : ℕ) → Bool
unfolding elf32_to_cpu
too_large ei_data value = ltb ulong_max (elf32_to_cpu ei_data (value % word))

unfoldable pub checked_ehdr : ElfClass → (ei_class ei_data : ℕ) → FileEhdr → Parsed MemEhdr
unfolding fill_ehdr too_large elf16_to_cpu
checked_ehdr c ei_class ei_data l =
    let h = fill_ehdr c ei_class ei_data l in
    if not (elf16_to_cpu ei_data l.e_ehsize == c.ehdr_size)
    then rejected
    else if too_large ei_data l.e_entry
        || (too_large ei_data l.e_phoff || too_large ei_data l.e_shoff)
    then rejected
    else if ltb 0 h.e_phnum && not (elf16_to_cpu ei_data l.e_phentsize == c.phdr_size)
    then rejected
    else if ltb 0 h.e_shnum && not (elf16_to_cpu ei_data l.e_shentsize == c.shdr_size)
    then rejected
    else parsed h

unfoldable pub build_mem_elf32_ehdr : Bytes → (ei_class ei_data : ℕ) → Parsed MemEhdr
unfolding checked_ehdr elf32_ehdr
build_mem_elf32_ehdr buf ei_class ei_data =
    if ltb (length buf) class32.ehdr_size
    then rejected
    else checked_ehdr class32 ei_class ei_data (elf32_ehdr buf)

unfoldable pub build_mem_elf64_ehdr : Bytes → (ei_class ei_data : ℕ) → Parsed MemEhdr
unfolding checked_ehdr elf64_ehdr
build_mem_elf64_ehdr buf ei_class ei_data =
    if ltb (length buf) class64.ehdr_size
    then rejected
    else checked_ehdr class64 ei_class ei_data (elf64_ehdr buf)

-- ELFMAG
abbrev pub elfmag : Bytes
elfmag = 127 ∷ 69 ∷ 76 ∷ 70 ∷ []

unfoldable pub check_version : (ei_version : ℕ) → MemEhdr → Parsed MemEhdr
check_version ei_version h =
    if not (ei_version == ev_current) || not (h.e_version == ev_current) then rejected else parsed h

-- e_ident is the first 16 bytes: the class, the order of bytes and the version stand at 4, 5 and 6.
unfoldable pub build_mem_ehdr : Bytes → Parsed MemEhdr
unfolding build_mem_elf32_ehdr build_mem_elf64_ehdr check_version
build_mem_ehdr buf =
    let ei_class = get_or buf 4 0 in
    let ei_data = get_or buf 5 0 in
    let built : Parsed MemEhdr =
      if ei_class == elfclass32
      then build_mem_elf32_ehdr buf ei_class ei_data
      else build_mem_elf64_ehdr buf ei_class ei_data in
    if ltb (length buf) 16
    then rejected
    else if not (strcmp_eq (take 4 buf) elfmag)
    then rejected
    else if not (ei_class == elfclass32) && not (ei_class == elfclass64)
    then rejected
    else if not (ei_data == elfdata2lsb) && not (ei_data == elfdata2msb)
    then rejected
    else built >>= check_version (get_or buf 6 0)

-- None of the numbers is too large for an `unsigned long`.
unfoldable pub all_fit : List ℕ → Bool
all_fit [] = true
all_fit (n ∷ ns) = not (ltb ulong_max n) && all_fit ns

unfoldable pub fill_phdr : ElfClass → (ei_data : ℕ) → FilePhdr → MemPhdr
unfolding elf32_to_cpu elf_to_cpu
fill_phdr c ei_data l = record {
  p_type = elf32_to_cpu ei_data l.p_type;
  p_paddr = elf_to_cpu ei_data c.width l.p_paddr;
  p_vaddr = elf_to_cpu ei_data c.width l.p_vaddr;
  p_filesz = elf_to_cpu ei_data c.width l.p_filesz;
  p_memsz = elf_to_cpu ei_data c.width l.p_memsz;
  p_offset = elf_to_cpu ei_data c.width l.p_offset;
  p_flags = elf32_to_cpu ei_data l.p_flags;
  p_align = elf_to_cpu ei_data c.width l.p_align;
  p_data = 0;
}

unfoldable pub fitting_phdr : MemPhdr → Parsed MemPhdr
unfolding all_fit
fitting_phdr p =
    if all_fit (p.p_filesz ∷ p.p_memsz ∷ p.p_offset ∷ p.p_paddr ∷ p.p_vaddr ∷ p.p_align ∷ [])
    then parsed p
    else rejected

-- The entry at `idx`, which is read whether or not it lies in the buffer.
unfoldable pub build_mem_elf32_phdr : ElfFile → MemEhdr → (idx : ℕ) → Parsed MemPhdr
unfolding fitting_phdr fill_phdr elf32_phdr
build_mem_elf32_phdr f h idx =
    let at = h.e_phoff + idx * class32.phdr_size in
    if ltb (length f.buf) (at + class32.phdr_size)
    then faults
    else fitting_phdr (fill_phdr class32 h.ei_data (elf32_phdr (drop at f.buf)))

unfoldable pub build_mem_elf64_phdr : ElfFile → MemEhdr → (idx : ℕ) → Parsed MemPhdr
unfolding fitting_phdr fill_phdr elf64_phdr
build_mem_elf64_phdr f h idx =
    let at = h.e_phoff + idx * class64.phdr_size in
    if ltb (length f.buf) (at + class64.phdr_size)
    then faults
    else fitting_phdr (fill_phdr class64 h.ei_data (elf64_phdr (drop at f.buf)))

unfoldable pub build_mem_phdr : ElfFile → MemEhdr → (idx : ℕ) → Parsed MemPhdr
unfolding build_mem_elf32_phdr build_mem_elf64_phdr
build_mem_phdr f h idx =
    if h.ei_class == elfclass32
    then build_mem_elf32_phdr f h idx
    else if h.ei_class == elfclass64
    then build_mem_elf64_phdr f h idx
    else rejected

-- The checks of a program header, and where its bytes are.
unfoldable pub check_phdr : ElfFile → MemPhdr → Parsed MemPhdr
check_phdr f p =
    if ltb (length f.buf) ((p.p_offset + p.p_filesz) % word)
    then rejected
    else if ltb ((p.p_paddr + p.p_memsz) % word) p.p_paddr
    then rejected
    else parsed (record p { p_data = (f.address + p.p_offset) % word })

-- The loop, with the number of entries that are left.
unfoldable pub phdr_loop : ElfFile → MemEhdr → (left idx : ℕ) → Parsed (List MemPhdr)
unfolding build_mem_phdr check_phdr
phdr_loop f h zero idx = parsed []
phdr_loop f h (suc left) idx = do
  p ← build_mem_phdr f h idx
  p' ← check_phdr f p
  rest ← phdr_loop f h left (idx + 1)
  parsed (p' ∷ rest)

-- The size of one entry; a class that is neither of the two is rejected first.
unfoldable pub phdr_size_of : (ei_class : ℕ) → ℕ
phdr_size_of ei_class = if ei_class == elfclass32 then class32.phdr_size else class64.phdr_size

unfoldable pub shdr_size_of : (ei_class : ℕ) → ℕ
shdr_size_of ei_class = if ei_class == elfclass32 then class32.shdr_size else class64.shdr_size

abbrev pub is_class : (ei_class : ℕ) → Bool
is_class ei_class = ei_class == elfclass32 || ei_class == elfclass64

unfoldable pub build_mem_phdrs : ElfFile → MemEhdr → Parsed (List MemPhdr)
unfolding phdr_loop phdr_size_of
build_mem_phdrs f h =
    if not (is_class h.ei_class)
    then rejected
    else if ltb (length f.buf) ((h.e_phoff + phdr_size_of h.ei_class * h.e_phnum) % word)
    then rejected
    else phdr_loop f h h.e_phnum 0

-- SHT_SYMTAB, SHT_RELA, SHT_DYNAMIC, SHT_REL; the size of an entry of any other type is free.
unfoldable pub entsize_ok : ElfClass → (sh_type sh_entsize : ℕ) → Bool
entsize_ok c sh_type sh_entsize =
    if sh_type == 2
    then sh_entsize == c.sym_size
    else if sh_type == 4
    then sh_entsize == c.rela_size
    else if sh_type == 6
    then sh_entsize == c.dyn_size
    else if sh_type == 9
    then sh_entsize == c.rel_size
    else true

unfoldable pub fill_shdr : ElfClass → (ei_data : ℕ) → FileShdr → MemShdr
unfolding elf32_to_cpu elf_to_cpu
fill_shdr c ei_data l = record {
  sh_name = elf32_to_cpu ei_data l.sh_name;
  sh_type = elf32_to_cpu ei_data l.sh_type;
  sh_flags = elf_to_cpu ei_data c.width l.sh_flags;
  sh_addr = elf_to_cpu ei_data c.width l.sh_addr;
  sh_offset = elf_to_cpu ei_data c.width l.sh_offset;
  sh_size = elf_to_cpu ei_data c.width l.sh_size;
  sh_link = elf32_to_cpu ei_data l.sh_link;
  sh_info = elf32_to_cpu ei_data l.sh_info;
  sh_addralign = elf_to_cpu ei_data c.width l.sh_addralign;
  sh_entsize = elf_to_cpu ei_data c.width l.sh_entsize;
  sh_data = 0;
}

unfoldable pub fitting_shdr : ElfClass → MemShdr → Parsed MemShdr
unfolding all_fit entsize_ok
fitting_shdr c s =
    if not (
      all_fit
        (s.sh_flags ∷ s.sh_addr ∷ s.sh_offset ∷ s.sh_size ∷ s.sh_addralign ∷ s.sh_entsize ∷ []))
    then rejected
    else if entsize_ok c s.sh_type s.sh_entsize
    then parsed s
    else rejected

unfoldable pub build_mem_elf32_shdr : ElfFile → MemEhdr → (idx : ℕ) → Parsed MemShdr
unfolding fitting_shdr fill_shdr elf32_shdr
build_mem_elf32_shdr f h idx =
    let at = h.e_shoff + idx * class32.shdr_size in
    if ltb (length f.buf) (at + class32.shdr_size)
    then faults
    else fitting_shdr class32 (fill_shdr class32 h.ei_data (elf32_shdr (drop at f.buf)))

unfoldable pub build_mem_elf64_shdr : ElfFile → MemEhdr → (idx : ℕ) → Parsed MemShdr
unfolding fitting_shdr fill_shdr elf64_shdr
build_mem_elf64_shdr f h idx =
    let at = h.e_shoff + idx * class64.shdr_size in
    if ltb (length f.buf) (at + class64.shdr_size)
    then faults
    else fitting_shdr class64 (fill_shdr class64 h.ei_data (elf64_shdr (drop at f.buf)))

unfoldable pub build_mem_shdr : ElfFile → MemEhdr → (idx : ℕ) → Parsed MemShdr
unfolding build_mem_elf32_shdr build_mem_elf64_shdr
build_mem_shdr f h idx =
    if h.ei_class == elfclass32
    then build_mem_elf32_shdr f h idx
    else if h.ei_class == elfclass64
    then build_mem_elf64_shdr f h idx
    else rejected

-- A section of SHT_NOBITS has no bytes in the file.
unfoldable pub check_shdr : ElfFile → MemShdr → Parsed MemShdr
check_shdr f s =
    if not (s.sh_type == 8) && ltb (length f.buf) ((s.sh_offset + s.sh_size) % word)
    then rejected
    else if ltb ((s.sh_addr + s.sh_size) % word) s.sh_addr
    then rejected
    else parsed (record s { sh_data = (f.address + s.sh_offset) % word })

unfoldable pub shdr_loop : ElfFile → MemEhdr → (left idx : ℕ) → Parsed (List MemShdr)
unfolding build_mem_shdr check_shdr
shdr_loop f h zero idx = parsed []
shdr_loop f h (suc left) idx = do
  s ← build_mem_shdr f h idx
  s' ← check_shdr f s
  rest ← shdr_loop f h left (idx + 1)
  parsed (s' ∷ rest)

unfoldable pub build_mem_shdrs : ElfFile → MemEhdr → Parsed (List MemShdr)
unfolding shdr_loop shdr_size_of
build_mem_shdrs f h =
    if not (is_class h.ei_class)
    then rejected
    else if ltb (length f.buf) ((h.e_shoff + shdr_size_of h.ei_class * h.e_shnum) % word)
    then rejected
    else shdr_loop f h h.e_shnum 0
