-- ===== src/Kexec/Elf/Rel.antt =====
-- kexec-tools/kexec/kexec-elf-rel.c: where `elf_rel_load` places the sections of a relocatable object,
-- such as the purgatory. The relocation of what the sections hold is not modelled.
pub mod Fits
use monoimage.Prelude.{
  ℕ, ◌+◌, ◌-◌, ◌%◌, Bool, not, ◌||◌, ◌&&◌, List, [], ◌∷◌, ltb, leb, ◌==◌, if◌then◌else◌,
}
use Prim.Native.Nat.{bit_and}
use monoimage.Kexec.{word}
use monoimage.Kexec.Hole.{mask_down}
use monoimage.Kexec.Elf.{MemShdr}

-- SHT_NOBITS, SHF_ALLOC
abbrev pub sht_nobits : ℕ
sht_nobits = 8

unfoldable pub is_alloc : (sh_flags : ℕ) → Bool
is_alloc sh_flags = not (bit_and sh_flags 2 == 0)

-- (x + (align - 1)) & ~(align - 1)
unfoldable pub align_up : (x align : ℕ) → ℕ
unfolding mask_down
align_up x align = mask_down align ((x + (align + word - 1) % word) % word)

pub record Footprint : Type 0 where
  pub buf_align : ℕ
  pub bss_align : ℕ
  pub bufsz : ℕ
  pub bsssz : ℕ

abbrev pub no_footprint : Footprint
no_footprint = record { buf_align = 1; bss_align = 1; bufsz = 0; bsssz = 0 }

unfoldable pub note_section : MemShdr → Footprint → Footprint
unfolding align_up
note_section s p =
    let align = s.sh_addralign in
    if not (s.sh_type == sht_nobits)
    then record p {
      buf_align = if ltb p.buf_align align then align else p.buf_align;
      bufsz = (align_up p.bufsz align + s.sh_size) % word;
    }
    else record p {
      bss_align = if ltb p.bss_align align then align else p.bss_align;
      bsssz = (align_up p.bsssz align + s.sh_size) % word;
    }

-- The loop that finds the memory footprint.
unfoldable pub footprint : List MemShdr → Footprint → Footprint
unfolding is_alloc note_section
footprint [] p = p
footprint (s ∷ ss) p = footprint ss (if is_alloc s.sh_flags then note_section s p else p)

-- `if (buf_align < bss_align) buf_align = bss_align;`
unfoldable pub raise_buf_align : Footprint → Footprint
raise_buf_align p = record p {
  buf_align = if ltb p.buf_align p.bss_align then p.bss_align else p.buf_align;
}

unfoldable pub bss_pad : Footprint → ℕ
bss_pad p =
    let over = bit_and p.bufsz (p.bss_align - 1) in if over == 0 then 0 else p.bss_align - over

-- The loop that finds an address for each section, in the buffer at `buf` for the memory from `buf_addr` on.
unfoldable pub place_sections : (buf buf_addr data_addr bss_addr : ℕ) → List MemShdr → List MemShdr
unfolding is_alloc align_up
place_sections buf buf_addr data_addr bss_addr [] = []
place_sections buf buf_addr data_addr bss_addr (s ∷ ss) =
    let d = align_up data_addr s.sh_addralign in
    let b = align_up bss_addr s.sh_addralign in
    let placed : MemShdr = record s {
      sh_addr = d;
      sh_data = (buf + (d + word - buf_addr) % word) % word;
    } in
    if not (is_alloc s.sh_flags)
    then s ∷ place_sections buf buf_addr data_addr bss_addr ss
    else if not (s.sh_type == sht_nobits)
    then placed ∷ place_sections buf buf_addr ((d + s.sh_size) % word) bss_addr ss
    else record s { sh_addr = b }
      ∷ place_sections buf buf_addr data_addr ((b + s.sh_size) % word) ss

-- The two loops, with what `add_buffer` and `xmalloc` gave in between.
unfoldable pub layout : (buf buf_addr : ℕ) → List MemShdr → List MemShdr
unfolding footprint raise_buf_align bss_pad place_sections
layout buf buf_addr ss =
    let p = raise_buf_align (footprint ss no_footprint) in
    place_sections buf buf_addr buf_addr ((buf_addr + p.bufsz + bss_pad p) % word) ss
