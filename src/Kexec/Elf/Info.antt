-- ===== src/Kexec/Elf/Info.antt =====
-- kexec-tools/kexec/kexec-elf.c: `build_elf_info`. After a failure the header is cleared, and the
-- result is -1.
use monoimage.Prelude.{ℕ, ◌&&◌, some, ltb, if◌then◌else◌}
use monoimage.Kexec.Elf.{ElfFile, Parsed, parsed, ◌>>=◌, MemEhdr}
use monoimage.Kexec.Elf.Tables.{build_mem_ehdr, build_mem_phdrs, build_mem_shdrs}
use monoimage.Kexec.Elf.Notes.{build_mem_notes}

unfoldable pub with_phdrs : ElfFile → MemEhdr → Parsed MemEhdr
unfolding build_mem_phdrs
with_phdrs f h =
    let built : Parsed MemEhdr = do ps ← build_mem_phdrs f h; parsed (record h { e_phdr = some ps })
    in if ltb 0 h.e_phoff && ltb 0 h.e_phnum then built else parsed h

unfoldable pub with_shdrs : ElfFile → MemEhdr → Parsed MemEhdr
unfolding build_mem_shdrs
with_shdrs f h =
    let built : Parsed MemEhdr = do ss ← build_mem_shdrs f h; parsed (record h { e_shdr = some ss })
    in if ltb 0 h.e_shoff && ltb 0 h.e_shnum then built else parsed h

unfoldable pub with_notes : (fuel : ℕ) → ElfFile → MemEhdr → Parsed MemEhdr
unfolding build_mem_notes
with_notes fuel f h = do notes ← build_mem_notes fuel f h; parsed (record h { e_note = notes })

unfoldable pub build_elf_info : (fuel : ℕ) → ElfFile → Parsed MemEhdr
unfolding build_mem_ehdr with_phdrs with_shdrs with_notes
build_elf_info fuel f = do
  h ← build_mem_ehdr f.buf
  h' ← with_phdrs f h
  h'' ← with_shdrs f h'
  with_notes fuel f h''
