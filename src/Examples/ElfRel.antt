-- ===== src/Examples/ElfRel.antt =====
-- Four sections: code, a comment that is not loaded, data, and memory without bytes.
use monoimage.Prelude.{ℕ, ◌+◌, ◌%◌, ◌≡◌, refl, List, [], ◌∷◌, All, arith}
use monoimage.Kexec.Elf.{MemShdr}
use monoimage.Kexec.Elf.Rel.{is_alloc, Footprint, no_footprint, footprint, bss_pad, layout}
use monoimage.Kexec.Elf.Rel.Fits.{IsAligned, AreLaid, layout-AreLaid}

abbrev section : (sh_type sh_flags sh_size sh_addralign : ℕ) → MemShdr
section sh_type sh_flags sh_size sh_addralign = record {
  sh_name = 0;
  sh_type = sh_type;
  sh_flags = sh_flags;
  sh_addr = 0;
  sh_offset = 0;
  sh_size = sh_size;
  sh_link = 0;
  sh_info = 0;
  sh_addralign = sh_addralign;
  sh_entsize = 0;
  sh_data = 0;
}

abbrev sections : List MemShdr
sections = section 1 6 20 16 ∷ section 1 0 9 0 ∷ section 1 3 5 4 ∷ section 8 3 40 32 ∷ []

abbrev sections_footprint : Footprint
sections_footprint = record { buf_align = 16; bss_align = 32; bufsz = 25; bsssz = 40 }

sections_fit : footprint sections no_footprint ≡ sections_footprint
unfolding footprint
sections_fit = refl

sections_padded : (0x1000 + 25 + bss_pad sections_footprint) % 0x1_0000_0000 ≡ 0x1020
unfolding bss_pad
sections_padded = refl

sections-IsAligned : All (IsAligned 0x1000 0x1020) sections
unfolding is_alloc
sections-IsAligned = (
  (λ e. ((4, 28, refl, refl), (256, refl))),
  (
    (λ e. ground (arith, e)),
    ((λ e. ((2, 30, refl, refl), (1024, refl))), ((λ e. ((5, 27, refl, refl), (129, refl))), tt)),
  ),
)

layout-AreLaid_example :
    AreLaid 7000 0x1000 0x1000 0x1020 (layout 7000 0x1000 sections) (0x1000 + 25) (0x1020 + 40)
layout-AreLaid_example =
    layout-AreLaid 7000 0x1000 0x1020 sections sections_footprint sections_fit sections_padded
      (omega arith) (omega arith) sections-IsAligned
