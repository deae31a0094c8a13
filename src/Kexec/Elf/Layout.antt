-- ===== src/Kexec/Elf/Layout.antt =====
-- kexec-tools/include/elf.h and the first part of kexec-tools/kexec/kexec-elf.c: the structures of an
-- ELF file with their fields in the order of bytes of the file, and the functions that turn it.
use mathlib.Core.List.{reverse}
use monoimage.Prelude.{ℕ, ◌==◌, if◌then◌else◌, Bytes}
use monoimage.Image.{le_word, le_bytes, field_at}
use monoimage.Kexec.{ulong_max}

-- ELFCLASS32, ELFCLASS64, ELFDATA2LSB, ELFDATA2MSB, EV_CURRENT
abbrev pub elfclass32 : ℕ
elfclass32 = 1

abbrev pub elfclass64 : ℕ
elfclass64 = 2

abbrev pub elfdata2lsb : ℕ
elfdata2lsb = 1

abbrev pub elfdata2msb : ℕ
elfdata2msb = 2

abbrev pub ev_current : ℕ
ev_current = 1

-- bswap_16, bswap_32 and bswap_64, by the number of bytes
unfoldable pub bswap : (width value : ℕ) → ℕ
unfolding le_word le_bytes
bswap width value = le_word (reverse (le_bytes width value))

-- The functions of one width differ in nothing but that.
unfoldable pub elf_to_cpu : (ei_data width value : ℕ) → ℕ
unfolding bswap
elf_to_cpu ei_data width value = if ei_data == elfdata2msb then bswap width value else value

unfoldable pub elf16_to_cpu : (ei_data value : ℕ) → ℕ
unfolding elf_to_cpu
elf16_to_cpu ei_data value = elf_to_cpu ei_data 2 value

unfoldable pub elf32_to_cpu : (ei_data value : ℕ) → ℕ
unfolding elf_to_cpu
elf32_to_cpu ei_data value = elf_to_cpu ei_data 4 value

unfoldable pub elf64_to_cpu : (ei_data value : ℕ) → ℕ
unfolding elf_to_cpu
elf64_to_cpu ei_data value = elf_to_cpu ei_data 8 value

unfoldable pub cpu_to_elf16 : (ei_data value : ℕ) → ℕ
unfolding bswap
cpu_to_elf16 ei_data value = if ei_data == elfdata2msb then bswap 2 value else value

unfoldable pub cpu_to_elf32 : (ei_data value : ℕ) → ℕ
unfolding bswap
cpu_to_elf32 ei_data value = if ei_data == elfdata2msb then bswap 4 value else value

unfoldable pub cpu_to_elf64 : (ei_data value : ℕ) → ℕ
unfolding bswap
cpu_to_elf64 ei_data value = if ei_data == elfdata2msb then bswap 8 value else value

-- ELF64_MAX is ULONG_MAX, which is smaller.
unfoldable pub elf_max_addr : (ei_class : ℕ) → ℕ
elf_max_addr ei_class =
    if ei_class == elfclass32 then 0xffff_ffff else if ei_class == elfclass64 then ulong_max else 0

-- What the two classes differ in: the bytes of an address, and the sizes of the structures.
pub record ElfClass : Type 0 where
  pub width : ℕ
  pub ehdr_size : ℕ
  pub phdr_size : ℕ
  pub shdr_size : ℕ
  pub sym_size : ℕ
  pub rela_size : ℕ
  pub dyn_size : ℕ
  pub rel_size : ℕ

abbrev pub class32 : ElfClass
class32 = record {
  width = 4;
  ehdr_size = 52;
  phdr_size = 32;
  shdr_size = 40;
  sym_size = 16;
  rela_size = 12;
  dyn_size = 8;
  rel_size = 8;
}

abbrev pub class64 : ElfClass
class64 = record {
  width = 8;
  ehdr_size = 64;
  phdr_size = 56;
  shdr_size = 64;
  sym_size = 24;
  rela_size = 24;
  dyn_size = 16;
  rel_size = 16;
}

-- The fields of Elf32_Ehdr and of Elf64_Ehdr
pub record FileEhdr : Type 0 where
  pub e_type : ℕ
  pub e_machine : ℕ
  pub e_version : ℕ
  pub e_entry : ℕ
  pub e_phoff : ℕ
  pub e_shoff : ℕ
  pub e_flags : ℕ
  pub e_ehsize : ℕ
  pub e_phentsize : ℕ
  pub e_phnum : ℕ
  pub e_shentsize : ℕ
  pub e_shnum : ℕ
  pub e_shstrndx : ℕ

unfoldable pub elf32_ehdr : Bytes → FileEhdr
unfolding field_at
elf32_ehdr buf = record {
  e_type = field_at 16 2 buf;
  e_machine = field_at 18 2 buf;
  e_version = field_at 20 4 buf;
  e_entry = field_at 24 4 buf;
  e_phoff = field_at 28 4 buf;
  e_shoff = field_at 32 4 buf;
  e_flags = field_at 36 4 buf;
  e_ehsize = field_at 40 2 buf;
  e_phentsize = field_at 42 2 buf;
  e_phnum = field_at 44 2 buf;
  e_shentsize = field_at 46 2 buf;
  e_shnum = field_at 48 2 buf;
  e_shstrndx = field_at 50 2 buf;
}

unfoldable pub elf64_ehdr : Bytes → FileEhdr
unfolding field_at
elf64_ehdr buf = record {
  e_type = field_at 16 2 buf;
  e_machine = field_at 18 2 buf;
  e_version = field_at 20 4 buf;
  e_entry = field_at 24 8 buf;
  e_phoff = field_at 32 8 buf;
  e_shoff = field_at 40 8 buf;
  e_flags = field_at 48 4 buf;
  e_ehsize = field_at 52 2 buf;
  e_phentsize = field_at 54 2 buf;
  e_phnum = field_at 56 2 buf;
  e_shentsize = field_at 58 2 buf;
  e_shnum = field_at 60 2 buf;
  e_shstrndx = field_at 62 2 buf;
}

-- Elf32_Phdr and Elf64_Phdr
pub record FilePhdr : Type 0 where
  pub p_type : ℕ
  pub p_flags : ℕ
  pub p_offset : ℕ
  pub p_vaddr : ℕ
  pub p_paddr : ℕ
  pub p_filesz : ℕ
  pub p_memsz : ℕ
  pub p_align : ℕ

unfoldable pub elf32_phdr : Bytes → FilePhdr
unfolding field_at
elf32_phdr buf = record {
  p_type = field_at 0 4 buf;
  p_offset = field_at 4 4 buf;
  p_vaddr = field_at 8 4 buf;
  p_paddr = field_at 12 4 buf;
  p_filesz = field_at 16 4 buf;
  p_memsz = field_at 20 4 buf;
  p_flags = field_at 24 4 buf;
  p_align = field_at 28 4 buf;
}

unfoldable pub elf64_phdr : Bytes → FilePhdr
unfolding field_at
elf64_phdr buf = record {
  p_type = field_at 0 4 buf;
  p_flags = field_at 4 4 buf;
  p_offset = field_at 8 8 buf;
  p_vaddr = field_at 16 8 buf;
  p_paddr = field_at 24 8 buf;
  p_filesz = field_at 32 8 buf;
  p_memsz = field_at 40 8 buf;
  p_align = field_at 48 8 buf;
}

-- Elf32_Shdr and Elf64_Shdr
pub record FileShdr : Type 0 where
  pub sh_name : ℕ
  pub sh_type : ℕ
  pub sh_flags : ℕ
  pub sh_addr : ℕ
  pub sh_offset : ℕ
  pub sh_size : ℕ
  pub sh_link : ℕ
  pub sh_info : ℕ
  pub sh_addralign : ℕ
  pub sh_entsize : ℕ

unfoldable pub elf32_shdr : Bytes → FileShdr
unfolding field_at
elf32_shdr buf = record {
  sh_name = field_at 0 4 buf;
  sh_type = field_at 4 4 buf;
  sh_flags = field_at 8 4 buf;
  sh_addr = field_at 12 4 buf;
  sh_offset = field_at 16 4 buf;
  sh_size = field_at 20 4 buf;
  sh_link = field_at 24 4 buf;
  sh_info = field_at 28 4 buf;
  sh_addralign = field_at 32 4 buf;
  sh_entsize = field_at 36 4 buf;
}

unfoldable pub elf64_shdr : Bytes → FileShdr
unfolding field_at
elf64_shdr buf = record {
  sh_name = field_at 0 4 buf;
  sh_type = field_at 4 4 buf;
  sh_flags = field_at 8 8 buf;
  sh_addr = field_at 16 8 buf;
  sh_offset = field_at 24 8 buf;
  sh_size = field_at 32 8 buf;
  sh_link = field_at 40 4 buf;
  sh_info = field_at 44 4 buf;
  sh_addralign = field_at 48 8 buf;
  sh_entsize = field_at 56 8 buf;
}
