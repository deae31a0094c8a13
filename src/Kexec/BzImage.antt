-- ===== src/Kexec/BzImage.antt =====
-- kexec-tools/kexec/arch/i386/kexec-bzImage.c: `bzImage_probe`, and `do_bzImage_load`, to which
-- `monoimage_load` hands the parts of an image. The purgatory is another program; placing it
-- (`elf_rel_build_load`) is a parameter, and so are the addresses of its symbols, which it has.
pub mod Placed
pub mod Command
use monoimage.Prelude.{
  ℕ, ◌+◌, ◌-◌, ◌*◌, ◌%◌, ◌/◌, ◌^◌, Bool, true, false, not, ◌&&◌, Option, none, some, List, [], ◌∷◌,
  ◌++◌, ltb, leb, ◌==◌, if◌then◌else◌, Bytes, codes, length, take, drop,
}
use monoimage.CStr.{has_prefix}
use monoimage.Image.{field_at}
use monoimage.Kexec.{word, MemoryRange, KexecInfo, Machine, setup_too_high, Outcome, returned, died}
use monoimage.Kexec.Hole.{Request, highest}
use monoimage.Kexec.Add.{add_segment, add_buffer}
use monoimage.Kexec.Setup.{
  RealMode, Buffer, SystemMap, setup_linux_bootloader_parameters, setup_memory,
}

-- The size of `struct x86_linux_header`
abbrev pub linux_header_size : ℕ
linux_header_size = 32768

unfoldable pub bz_image_probe : Bytes → Bool
unfolding field_at
bz_image_probe buf =
    not (ltb (length buf) linux_header_size)
    && (has_prefix (codes "HdrS") (drop 514 buf)
        && ((field_at 510 2 buf == 43605)
            && (leb 512 (field_at 518 2 buf) && not (field_at 529 1 buf % 2 == 0))))

-- The sectors of the setup code, and their bytes with the boot sector.
unfoldable pub setup_sects : Bytes → ℕ
unfolding field_at
setup_sects kernel = let n = field_at 497 1 kernel in if n == 0 then 4 else n

unfoldable pub kern16_size : Bytes → ℕ
unfolding setup_sects
kern16_size kernel = (setup_sects kernel + 1) * 512

-- The parameter block is a copy of the first sectors of the kernel.
unfoldable pub real_mode_of : Bytes → RealMode
unfolding field_at
real_mode_of kernel = record {
  protocol_version = field_at 518 2 kernel;
  initrd_addr_max = field_at 556 4 kernel;
  loader_type = field_at 528 1 kernel;
  loader_flags = field_at 529 1 kernel;
  initrd_start = field_at 536 4 kernel;
  initrd_size = field_at 540 4 kernel;
  cl_magic = field_at 32 2 kernel;
  cl_offset = field_at 34 2 kernel;
  cmd_line_ptr = field_at 552 4 kernel;
  cmdline = [];
}

-- The purgatory in its place: the lowest address, and those of its symbols.
pub record Purgatory : Type 0 where
  pub rel_addr : ℕ
  pub addr_of : Bytes → ℕ

abbrev pub BuildLoad : Type 0
BuildLoad = KexecInfo → Outcome (KexecInfo × Purgatory)

-- The addresses of the kernel's bytes and of the parameter block in this process.
pub record Places : Type 0 where
  pub kernel_at : ℕ
  pub real_mode_at : ℕ

abbrev pub setup_request : ℕ → Request
setup_request size = record { size = size; align = 16; least = 12288; most = 655360 }

-- The parameter block: SETUP_BASE before version 2.00 of the protocol, else as high as there is room.
unfoldable pub place_setup : Machine → KexecInfo → (version at size : ℕ) → Outcome (KexecInfo × ℕ)
place_setup m info version at size =
    let fixed : Outcome (KexecInfo × ℕ) = elim (add_segment m info at size 589824 size) [
      | returned i ↦ returned (i, 589824)
      | died d ↦ died d
    ] in
    if leb 512 version then add_buffer m info at size (setup_request size) highest else fixed

-- The registers that are set, and the hooks of the debug mode.
pub record Regs : Type 0 where
  pub esi : ℕ
  pub esp : ℕ
  pub eip : ℕ
  pub cs : ℕ
  pub ss : ℕ

pub record Hooks : Type 0 where
  pub switch_cs : ℕ
  pub switch_ip : ℕ
  pub first32 : ℕ

abbrev pub kern32_base : ℕ
kern32_base = 1048576

unfoldable pub entry_of : Purgatory → (real_mode_entry debug : Bool) → ℕ
entry_of p real_mode_entry debug =
    if debug
    then p.addr_of (codes "entry16_debug")
    else if real_mode_entry
    then p.addr_of (codes "entry16")
    else kern32_base

unfoldable pub regs_of : Purgatory → (setup_base : ℕ) → (real_mode_entry debug : Bool) → Regs
unfolding entry_of
regs_of p setup_base real_mode_entry debug = record {
  esi = setup_base;
  esp = p.addr_of (codes "stack_end");
  eip = entry_of p real_mode_entry debug;
  cs = (setup_base + 32) % 2 ^ 16;
  ss = (p.addr_of (codes "stack_end") + word - 65536) % word / 16 % 2 ^ 16;
}

unfoldable pub hooks_of : Purgatory → (debug : Bool) → Option Hooks
hooks_of p debug =
    let entry = p.addr_of (codes "entry16_debug") in
    if debug
    then some (record {
      switch_cs = entry / 16 % 2 ^ 16;
      switch_ip = (p.addr_of (codes "entry16_debug_pre32") + word - entry) % 2 ^ 16;
      first32 = p.addr_of (codes "entry16_debug_first32");
    })
    else none

-- What is ready to be given to the system.
pub record Loaded : Type 0 where
  pub info : KexecInfo
  pub real_mode : RealMode
  pub regs : Regs
  pub hooks : Option Hooks
  pub map : Option SystemMap

unfoldable pub with_map :
    (real_mode_entry : Bool)
    → Option (List MemoryRange)
    → (Option SystemMap → Loaded)
    → Outcome Loaded
with_map real_mode_entry ranges make =
    let mapped : Outcome Loaded = elim (setup_memory ranges) [
      | returned map ↦ returned (make (some map))
      | died d ↦ died d
    ] in
    if real_mode_entry then returned (make none) else mapped

-- The two flags of the command line.
pub record LoadFlags : Type 0 where
  pub real_mode_entry : Bool
  pub debug : Bool

-- From the parameters of the boot loader on.
unfoldable pub finish_load :
    Machine
    → KexecInfo
    → Purgatory
    → (kernel : Bytes) → (setup_base : ℕ) → (cmdline : Bytes) → Option Buffer
    → LoadFlags
    → Option (List MemoryRange)
    → Outcome Loaded
unfolding regs_of hooks_of with_map
finish_load m info p kernel setup_base cmdline initrd f ranges =
    elim (setup_linux_bootloader_parameters m info (real_mode_of kernel) setup_base
      (kern16_size kernel) cmdline initrd) [
        | died d ↦ died d
        | returned (info', real_mode) ↦ with_map f.real_mode_entry ranges (λ map. record {
          info = info';
          real_mode = real_mode;
          regs = regs_of p setup_base f.real_mode_entry f.debug;
          hooks = hooks_of p f.debug;
          map = map;
        })
      ]

-- From the test of the purgatory's address on: the kernel's own segment.
unfoldable pub load_kernel :
    Machine
    → KexecInfo
    → Purgatory
    → Places
    → (kernel : Bytes) → (setup_base : ℕ) → (cmdline : Bytes) → Option Buffer
    → LoadFlags
    → Option (List MemoryRange)
    → Outcome Loaded
unfolding finish_load
load_kernel m info p at kernel setup_base cmdline initrd f ranges =
    let size = length kernel - kern16_size kernel in
    let loaded : Outcome Loaded =
      elim (add_segment m info (at.kernel_at + kern16_size kernel) size kern32_base size) [
        | died d ↦ died d
        | returned info' ↦ finish_load m info' p kernel setup_base cmdline initrd f ranges
      ] in
    if ltb p.rel_addr setup_base then died setup_too_high else loaded

unfoldable pub load_setup :
    Machine
    → KexecInfo
    → Purgatory
    → Places
    → (kernel : Bytes) → (cmdline : Bytes) → Option Buffer
    → LoadFlags
    → Option (List MemoryRange)
    → Outcome Loaded
unfolding place_setup load_kernel
load_setup m info p at kernel cmdline initrd f ranges =
    elim (place_setup m info (real_mode_of kernel).protocol_version at.real_mode_at
      (kern16_size kernel + length cmdline)) [
        | died d ↦ died d
        | returned (info', setup_base) ↦
            load_kernel m info' p at kernel setup_base cmdline initrd f ranges
      ]

-- `none` is the result -1; `cmdline` holds its NUL.
unfoldable pub do_bz_image_load :
    Machine
    → BuildLoad
    → KexecInfo
    → Places
    → (kernel : Bytes) → (cmdline : Bytes) → Option Buffer
    → LoadFlags
    → Option (List MemoryRange)
    → Outcome (Option Loaded)
unfolding load_setup
do_bz_image_load m build info at kernel cmdline initrd f ranges =
    let loaded : Outcome (Option Loaded) = elim (build info) [
      | died d ↦ died d
      | returned (info', p) ↦ elim (load_setup m info' p at kernel cmdline initrd f ranges) [
        | died d ↦ died d
        | returned l ↦ returned (some l)
      ]
    ] in
    if ltb (length kernel) linux_header_size
    then returned none
    else if ltb (length kernel) (kern16_size kernel)
    then returned none
    else loaded
