-- ===== src/Kexec/Elf/X86.antt =====
-- kexec-tools/kexec/arch/i386/kexec-elf-x86.c: `elf_x86_probe` and `elf_x86_load`, and `elf_boot_notes`
-- of kexec-tools/kexec/kexec-elf-boot.c. As in Kexec/BzImage, placing the purgatory is a parameter.
pub mod Shadowed
use monoimage.Prelude.{
  ℕ, ◌+◌, ◌*◌, ◌/◌, ◌%◌, Bool, true, false, ◌||◌, Option, none, some, List, [], ◌∷◌, ◌++◌, ◌==◌,
  if◌then◌else◌, Bytes, codes, length,
}
use monoimage.Kexec.{
  word, Die, MemoryRange, KexecInfo, Machine, args_none_on_other, ramdisk_with_notes, Outcome,
  returned, died,
}
use monoimage.Kexec.Hole.{Request, lowest}
use monoimage.Kexec.Add.{add_buffer}
use monoimage.Kexec.Slurp.{Loop, ended, out_of_fuel, slurp_file}
use monoimage.Kexec.Setup.{
  RealMode, Buffer, SystemMap, setup_linux_bootloader_parameters, setup_memory,
}
use monoimage.Kexec.BzImage.{Purgatory, BuildLoad}
use monoimage.Kexec.BzImage.Command.{Files, command_line_of}
use monoimage.Kexec.Elf.{ElfFile, Parsed, parsed, rejected, faults, exits, endless, ◌>>=◌, MemEhdr}
use monoimage.Kexec.Elf.Layout.{elf_max_addr}
use monoimage.Kexec.Elf.Exec.{build_elf_exec_info, elf_exec_build_load}

-- EM_386, EM_486
unfoldable pub check_machine : MemEhdr → Parsed MemEhdr
check_machine h = if h.e_machine == 3 || h.e_machine == 6 then parsed h else rejected

unfoldable pub elf_x86_probe : (fuel : ℕ) → ElfFile → Parsed MemEhdr
unfolding build_elf_exec_info check_machine
elf_x86_probe fuel f = build_elf_exec_info fuel f >>= check_machine

-- One result of getopt_long.
pub data ElfOpt : Type 0 where
  append : Bytes → ElfOpt
  ramdisk : Bytes → ElfOpt
  args_elf : ElfOpt
  args_linux : ElfOpt
  args_none : ElfOpt
  -- an option of kexec itself, which is ignored
  core : ElfOpt
  unknown : ElfOpt

pub record ElfOptions : Type 0 where
  pub command_line : Option Bytes
  pub ramdisk_file : Option Bytes
  -- ARG_STYLE_LINUX, or else ARG_STYLE_ELF
  pub linux_style : Bool

abbrev pub no_options : ElfOptions
no_options = record { command_line = none; ramdisk_file = none; linux_style = false }

-- `__i386___` has one underscore too many, and is defined nowhere.
unfoldable pub set_option : ElfOpt → ElfOptions → Parsed ElfOptions
set_option (append text) o = parsed (record o { command_line = some text })
set_option (ramdisk name) o = parsed (record o { ramdisk_file = some name })
set_option args_elf o = parsed (record o { linux_style = false })
set_option args_linux o = parsed (record o { linux_style = true })
set_option args_none o = exits args_none_on_other
set_option core o = parsed o
set_option unknown o = rejected

unfoldable pub parse_options : List ElfOpt → ElfOptions → Parsed ElfOptions
unfolding set_option
parse_options [] o = parsed o
parse_options (x ∷ xs) o = set_option x o >>= parse_options xs

-- A call that may exit, and one that reads a file.
abbrev pub call : {A : Type 0} → Outcome A → Parsed A
call (returned a) = parsed a
call (died d) = exits d

abbrev pub read : {A : Type 0} → Loop A → Parsed A
read out_of_fuel = endless
read (ended o) = call o

abbrev pub note_request : (size max_addr : ℕ) → Request
note_request size max_addr = record { size = size; align = 4; least = 0; most = max_addr }

-- The notes are a block of a fixed size, with the command line behind it; the size of the block and
-- its address are given. The contents of the block are in Kexec/Checksum.
pub record NoteBlock : Type 0 where
  pub size : ℕ
  pub address : ℕ

unfoldable pub elf_boot_notes :
    Machine → KexecInfo → NoteBlock → (max_addr cmdline_len : ℕ) → Outcome (KexecInfo × ℕ)
elf_boot_notes m info b max_addr cmdline_len =
    let note_bytes = b.size + (cmdline_len + 3) / 4 * 4 in
    add_buffer m info b.address note_bytes (note_request note_bytes max_addr) lowest

-- How the new kernel is started: its registers, the block of parameters or the address of the notes.
pub record Start : Type 0 where
  pub info : KexecInfo
  pub eip : ℕ
  pub esp : ℕ
  pub argument : ℕ
  pub real_mode : Option RealMode
  pub map : Option SystemMap

-- The ramdisk is refused only after everything else is done.
unfoldable pub start_elf :
    Machine → KexecInfo → Purgatory → NoteBlock → MemEhdr → ElfOptions → Parsed Start
unfolding elf_boot_notes
start_elf m info p b h o = do
  (info', note_base) ←
      call (
        elf_boot_notes m info b (elf_max_addr h.ei_class) (length (command_line_of o.command_line)))
  elim o.ramdisk_file [
    | some name ↦ exits ramdisk_with_notes
    | none ↦ parsed (record {
      info = info';
      eip = h.e_entry;
      esp = p.addr_of (codes "stack_arg32_2");
      argument = note_base;
      real_mode = none;
      map = none;
    })
  ]

-- What memset and init_linux_parameters leave.
abbrev pub blank : RealMode
blank = record {
  protocol_version = 515;
  initrd_addr_max = 939524095;
  loader_type = 0;
  loader_flags = 0;
  initrd_start = 0;
  initrd_size = 0;
  cl_magic = 0;
  cl_offset = 0;
  cmd_line_ptr = 0;
  cmdline = [];
}

-- The size of `struct x86_linux_faked_param_header`, and the place of the command line in it
abbrev pub param_size : ℕ
param_size = 4096

abbrev pub param_cmdline : ℕ
param_cmdline = 2048

abbrev pub param_request : (max_addr : ℕ) → Request
param_request max_addr = record { size = param_size; align = 16; least = 0; most = max_addr }

-- The file is read into a variable of the inner block, which hides the one that is passed on.
unfoldable pub read_hidden : (fuel : ℕ) → Files → Option Bytes → Parsed (Option Buffer)
read_hidden fuel fs none = parsed none
read_hidden fuel fs (some name) = do bytes ← read (slurp_file fuel (fs.open_file name)); parsed none

unfoldable pub start_linux :
    (fuel : ℕ)
    → Machine
    → KexecInfo
    → Purgatory
    → Files
    → (hdr_at : ℕ) → MemEhdr
    → ElfOptions
    → Option (List MemoryRange)
    → Parsed Start
unfolding read_hidden
start_linux fuel m info p fs hdr_at h o ranges = do
  (info₁, param_base) ←
      call (add_buffer m info hdr_at param_size (param_request (elf_max_addr h.ei_class)) lowest)
  initrd ← read_hidden fuel fs o.ramdisk_file
  (info₂, real_mode) ← call (
      setup_linux_bootloader_parameters m info₁ blank param_base param_cmdline
        (command_line_of o.command_line) initrd)
  map ← call (setup_memory ranges)
  parsed (record {
    info = info₂;
    eip = h.e_entry;
    esp = p.addr_of (codes "stack_end");
    argument = param_base;
    real_mode = some real_mode;
    map = some map;
  })

-- What the program finds: the files, the blocks that it has allocated, the memory map.
pub record Around : Type 0 where
  pub files : Files
  pub hdr_at : ℕ
  pub notes : NoteBlock
  pub ranges : Option (List MemoryRange)

unfoldable pub start_with :
    (fuel : ℕ) → Machine → BuildLoad → Around → MemEhdr → KexecInfo → ElfOptions → Parsed Start
unfolding start_elf start_linux
start_with fuel m build a h info o = do
  (info', p) ← call (build info)
  if o.linux_style
      then start_linux fuel m info' p a.files a.hdr_at h o a.ranges
      else start_elf m info' p a.notes h o

unfoldable pub elf_x86_load :
    (fuel : ℕ) → Machine → BuildLoad → Around → List ElfOpt → ElfFile → KexecInfo → Parsed Start
unfolding parse_options elf_exec_build_load start_with
elf_x86_load fuel m build a opts f info = do
  o ← parse_options opts no_options
  (h, info') ← elf_exec_build_load fuel m info f
  start_with fuel m build a h info' o
