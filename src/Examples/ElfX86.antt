-- ===== src/Examples/ElfX86.antt =====
-- The program of Examples/Elf, loaded with the options of elf_x86_load.
use monoimage.Prelude.{◌≡◌, refl, true, some, none, List, [], ◌∷◌, codes, length, arith}
use monoimage.Kexec.{returned}
use monoimage.Kexec.BzImage.{BuildLoad}
use monoimage.Kexec.BzImage.Command.{Files}
use monoimage.Kexec.Elf.{parsed}
use monoimage.Kexec.Elf.X86.{
  ElfOpt, append, ramdisk, args_linux, no_options, parse_options, Around, elf_x86_load,
}
use monoimage.Kexec.Elf.X86.Shadowed.{asked, elf_x86_load-hidden}
use monoimage.Examples.Kexec.{machine}
use monoimage.Examples.Load.{text, reader, reader-Serves}
use monoimage.Examples.Elf.{program, empty_info}

abbrev files : Files
files = record {
  open_file = λ name. some (record { size = length text; reader = reader; close_ok = true });
  buffer_at = 7000;
}

abbrev around : Around
around = record {
  files = files;
  hdr_at = 60000;
  notes = record { size = 64; address = 50000 };
  ranges = none;
}

abbrev build : BuildLoad
build info = returned (info, record { rel_addr = 647168; addr_of = λ name. 650000 })

abbrev with_ramdisk : List ElfOpt
with_ramdisk = args_linux ∷ ramdisk (codes "rd") ∷ append (codes "quiet") ∷ []

abbrev without : List ElfOpt
without = args_linux ∷ append (codes "quiet") ∷ []

with_parses :
    parse_options with_ramdisk no_options
    ≡ parsed (asked (some (codes "quiet")) (some (codes "rd")))
unfolding parse_options
with_parses = refl

without_parses : parse_options without no_options ≡ parsed (asked (some (codes "quiet")) none)
unfolding parse_options
without_parses = refl

elf_x86_load-hidden_example :
    elf_x86_load 9 machine build around with_ramdisk program empty_info
    ≡ elf_x86_load 9 machine build around without program empty_info
elf_x86_load-hidden_example =
    elf_x86_load-hidden 9 machine build around with_ramdisk without program empty_info
      (some (codes "quiet")) (codes "rd") text reader 0 with_parses without_parses refl
      reader-Serves (omega arith)
