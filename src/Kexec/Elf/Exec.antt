-- ===== src/Kexec/Elf/Exec.antt =====
-- kexec-tools/kexec/kexec-elf-exec.c: the loading of an ELF executable.
pub mod Segments
pub mod Loaded
pub mod Dynamic
use monoimage.Prelude.{
  ℕ, ◌+◌, ◌-◌, ◌%◌, Bool, true, false, not, ◌&&◌, ◌||◌, Option, none, some, List, [], ◌∷◌, ltb,
  ◌==◌, if◌then◌else◌,
}
use monoimage.Kexec.{
  word, ulong_max, KexecInfo, Machine, elf_exec_parse_failed, elf_exec_load_failed, Outcome,
  returned, died,
}
use monoimage.Kexec.Range.{valid_memory_range}
use monoimage.Kexec.Hole.{lowest, Request, locate_hole}
use monoimage.Kexec.Add.{add_segment}
use monoimage.Kexec.Elf.{
  ElfFile, Parsed, parsed, rejected, faults, exits, endless, ◌>>=◌, MemPhdr, MemEhdr,
}
use monoimage.Kexec.Elf.Layout.{elf_max_addr}
use monoimage.Kexec.Elf.Info.{build_elf_info}

-- ET_EXEC, ET_DYN, PT_LOAD, PT_INTERP
abbrev pub et_exec : ℕ
et_exec = 2

abbrev pub et_dyn : ℕ
et_dyn = 3

abbrev pub pt_load : ℕ
pt_load = 1

abbrev pub pt_interp : ℕ
pt_interp = 3

unfoldable pub has_interp : List MemPhdr → Bool
has_interp [] = false
has_interp (p ∷ ps) = p.p_type == pt_interp || has_interp ps

unfoldable pub check_exec : MemEhdr → Parsed MemEhdr
unfolding has_interp
check_exec h =
    let interp : Parsed MemEhdr = elim h.e_phdr [
      | none ↦ rejected
      | some ps ↦ if has_interp ps then rejected else parsed h
    ] in
    if not (h.e_type == et_exec) && not (h.e_type == et_dyn) then rejected else interp

unfoldable pub build_elf_exec_info : (fuel : ℕ) → ElfFile → Parsed MemEhdr
unfolding check_exec
build_elf_exec_info fuel f = build_elf_info fuel f >>= check_exec

-- `first`, `last` and `align` of a dynamic executable. The loop means to lower `first`; it assigns
-- to `start` instead, which is not used again, and so `first` stays.
pub record Extent : Type 0 where
  pub first : ℕ
  pub last : ℕ
  pub align : ℕ

unfoldable pub note_extent : MemPhdr → Extent → Extent
note_extent p e =
    let stop = (p.p_paddr + p.p_memsz) % word in
    if not (p.p_type == pt_load) || p.p_memsz == 0 then e else record e {
      last = if ltb e.last stop then stop else e.last;
      align = if ltb e.align p.p_align then p.p_align else e.align;
    }

unfoldable pub extent_loop : List MemPhdr → Extent → Extent
unfolding note_extent
extent_loop [] e = e
extent_loop (p ∷ ps) e = extent_loop ps (note_extent p e)

unfoldable pub extent_of : List MemPhdr → Extent
unfolding extent_loop
extent_of ps = extent_loop ps (record { first = ulong_max; last = 0; align = 0 })

unfoldable pub dyn_request : MemEhdr → Extent → Request
unfolding elf_max_addr
dyn_request h e = record {
  size = (e.last + word - e.first + 1) % word;
  align = e.align;
  least = 0;
  most = elf_max_addr h.ei_class;
}

-- `none` is the result -1.
unfoldable pub dyn_base : Machine → KexecInfo → MemEhdr → Extent → Outcome (Option ℕ)
unfolding dyn_request
dyn_base m info h e =
    let found : Outcome (Option ℕ) = elim (locate_hole m info (dyn_request h e) lowest) [
      | died d ↦ died d
      | returned hole ↦
          if hole == ulong_max
          then returned none
          else returned (some ((hole + word - e.first) % word))
    ] in
    if valid_memory_range m e.first e.last then returned (some 0) else found

-- The loop over the segments to load; what add_segment returns is not looked at.
unfoldable pub load_loop : Machine → (base : ℕ) → KexecInfo → List MemPhdr → Outcome KexecInfo
load_loop m base info [] = returned info
load_loop m base info (p ∷ ps) =
    let size = if ltb p.p_memsz p.p_filesz then p.p_memsz else p.p_filesz in
    let skipped = load_loop m base info ps in
    let loaded : Outcome KexecInfo =
      elim (add_segment m info p.p_data size ((p.p_paddr + base) % word) p.p_memsz) [
        | died d ↦ died d
        | returned info' ↦ load_loop m base info' ps
      ] in
    if p.p_type == pt_load then loaded else skipped

unfoldable pub load_at : Machine → KexecInfo → List MemPhdr → Option ℕ → Outcome (Option KexecInfo)
unfolding load_loop
load_at m info ps none = returned none
load_at m info ps (some base) = elim (load_loop m base info ps) [
  | died d ↦ died d
  | returned info' ↦ returned (some info')
]

unfoldable pub load_phdrs :
    Machine → MemEhdr → List MemPhdr → KexecInfo → Outcome (Option KexecInfo)
unfolding extent_of dyn_base load_at
load_phdrs m h ps info =
    let moved : Outcome (Option KexecInfo) = elim (dyn_base m info h (extent_of ps)) [
      | died d ↦ died d
      | returned base ↦ load_at m info ps base
    ] in
    if h.e_type == et_dyn then moved else load_at m info ps (some 0)

unfoldable pub elf_exec_load : Machine → MemEhdr → KexecInfo → Outcome (Option KexecInfo)
unfolding load_phdrs
elf_exec_load m h info = elim h.e_phdr [ none ↦ returned none | some ps ↦ load_phdrs m h ps info ]

-- The header and the segments, or the program exits.
unfoldable pub after_exec_load : MemEhdr → Outcome (Option KexecInfo) → Parsed (MemEhdr × KexecInfo)
after_exec_load h (died d) = exits d
after_exec_load h (returned none) = exits elf_exec_load_failed
after_exec_load h (returned (some info)) = parsed (h, info)

unfoldable pub parsed_or_die : Parsed MemEhdr → Parsed MemEhdr
parsed_or_die rejected = exits elf_exec_parse_failed
parsed_or_die (parsed h) = parsed h
parsed_or_die faults = faults
parsed_or_die (exits d) = exits d
parsed_or_die endless = endless

unfoldable pub elf_exec_build_load :
    (fuel : ℕ) → Machine → KexecInfo → ElfFile → Parsed (MemEhdr × KexecInfo)
unfolding build_elf_exec_info elf_exec_load after_exec_load parsed_or_die
elf_exec_build_load fuel m info f = do
  h ← parsed_or_die (build_elf_exec_info fuel f)
  after_exec_load h (elf_exec_load m h info)
