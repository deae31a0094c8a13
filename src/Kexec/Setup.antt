-- ===== src/Kexec/Setup.antt =====
-- kexec-tools/kexec/arch/i386/x86-linux-setup.c: `setup_linux_bootloader_parameters`, which places the
-- ramdisk and the command line, and the part of `setup_linux_system_parameters` that writes the
-- memory map for the new kernel. The other fields that it sets are constants.
pub mod Map
pub mod Ramdisk
use monoimage.Prelude.{
  ℕ, zero, suc, ◌+◌, ◌-◌, ◌*◌, ◌%◌, ◌/◌, ◌^◌, Bool, true, false, ◌&&◌, Option, none, some, List, [],
  ◌∷◌, ◌++◌, ltb, leb, ◌==◌, if◌then◌else◌, Bytes, length, take, drop,
}
use monoimage.Kexec.{
  word, RangeType, ram, reserved, acpi, acpi_nvs, MemoryRange, KexecInfo, Machine, no_memory_info,
  Outcome, returned, died,
}
use monoimage.Kexec.Range.{is_ram}
use monoimage.Kexec.Hole.{Request, highest}
use monoimage.Kexec.Add.{add_buffer}
use monoimage.Kexec.Memory.{long_word}

-- The types of the map for the new kernel: E820_RAM, E820_RESERVED, E820_ACPI, E820_NVS.
unfoldable pub e820_type : RangeType → ℕ
e820_type ram = 1
e820_type reserved = 2
e820_type acpi = 3
e820_type acpi_nvs = 4

pub record E820Entry : Type 0 where
  pub addr : ℕ
  pub size : ℕ
  pub type : ℕ

unfoldable pub e820_entry : MemoryRange → E820Entry
unfolding e820_type
e820_entry r = record {
  addr = r.start;
  size = (r.last + long_word - r.start) % long_word;
  type = e820_type r.type;
}

-- `ext_mem_k` and `alt_mem_k`, of 16 and 32 bits.
pub record MemSize : Type 0 where
  pub ext_mem_k : ℕ
  pub alt_mem_k : ℕ

unfoldable pub note_size : MemoryRange → MemSize → MemSize
unfolding is_ram
note_size r s =
    let mem_k = (r.last / 1024 + long_word - 1048576) % long_word in
    if is_ram r.type && leb r.start 1048576 && ltb 1048576 r.last
    then record {
      ext_mem_k = if ltb 64512 mem_k then 64512 else mem_k;
      alt_mem_k = if ltb 4294967295 mem_k then 4294967295 else mem_k;
    }
    else s

-- What `setup_linux_system_parameters` makes of the memory map.
pub record SystemMap : Type 0 where
  pub e820_map : List E820Entry
  pub mem_size : MemSize

unfoldable pub setup_loop : List MemoryRange → MemSize → SystemMap
unfolding e820_entry note_size
setup_loop [] s = record { e820_map = []; mem_size = s }
setup_loop (r ∷ rest) s =
    let later = setup_loop rest (note_size r s) in
    record { e820_map = e820_entry r ∷ later.e820_map; mem_size = later.mem_size }

abbrev pub e820max : ℕ
e820max = 32

-- Without a memory map the program exits.
unfoldable pub setup_memory : Option (List MemoryRange) → Outcome SystemMap
unfolding setup_loop
setup_memory none = died no_memory_info
setup_memory (some []) = died no_memory_info
setup_memory (some (r ∷ rest)) =
    let ranges = r ∷ rest in
    returned (
      setup_loop (if ltb e820max (length ranges) then take e820max ranges else ranges)
        (record { ext_mem_k = 0; alt_mem_k = 0 }))

-- The fields of the parameter block that the boot loader sets, and the bytes of the command line's
-- place in it.
pub record RealMode : Type 0 where
  pub protocol_version : ℕ
  pub initrd_addr_max : ℕ
  pub loader_type : ℕ
  pub loader_flags : ℕ
  pub initrd_start : ℕ
  pub initrd_size : ℕ
  pub cl_magic : ℕ
  pub cl_offset : ℕ
  pub cmd_line_ptr : ℕ
  pub cmdline : Bytes

-- A buffer at an address, with its bytes.
pub record Buffer : Type 0 where
  pub address : ℕ
  pub size : ℕ

abbrev pub command_line_size : ℕ
command_line_size = 256

-- The copy of at most 256 bytes, whose last byte becomes 0. For an empty command line, without even
-- its NUL, the byte in front of the place becomes 0 instead; the place itself is left alone.
unfoldable pub copy_cmdline : Bytes → Bytes
copy_cmdline cmdline =
    let n = if ltb command_line_size (length cmdline) then command_line_size else length cmdline in
    if n == 0 then [] else take (n - 1) cmdline ++ 0 ∷ []

-- DEFAULT_INITRD_ADDR_MAX, or what the kernel says from version 2.03 of the protocol on
unfoldable pub initrd_limit : RealMode → ℕ
initrd_limit r = if leb 515 r.protocol_version then r.initrd_addr_max else 939524095

abbrev pub initrd_request : RealMode → ℕ → Request
initrd_request r size = record {
  size = size;
  align = 4096;
  least = 16777216;
  most = initrd_limit r;
}

-- The ramdisk is placed at the highest address that is free for it.
unfoldable pub place_initrd :
    Machine → KexecInfo → RealMode → Option Buffer → Outcome (KexecInfo × ℕ × ℕ)
unfolding initrd_limit
place_initrd m info r none = returned (info, 0, 0)
place_initrd m info r (some b) =
    elim (add_buffer m info b.address b.size (initrd_request r b.size) highest) [
      | returned (info', base) ↦ returned (info', base, b.size)
      | died d ↦ died d
    ]

unfoldable pub write_parameters :
    RealMode → (base offset : ℕ) → (cmdline : Bytes) → (initrd_base initrd_size : ℕ) → RealMode
unfolding copy_cmdline
write_parameters r base offset cmdline initrd_base initrd_size = record r {
  loader_type = 255;
  loader_flags = 0;
  initrd_start = initrd_base;
  initrd_size = initrd_size;
  cl_magic = 41791;
  cl_offset = offset % 65536;
  cmd_line_ptr = if leb 514 r.protocol_version then (base + offset) % word else r.cmd_line_ptr;
  cmdline = copy_cmdline cmdline;
}

unfoldable pub setup_linux_bootloader_parameters :
    Machine
    → KexecInfo
    → RealMode
    → (real_mode_base cmdline_offset : ℕ) → (cmdline : Bytes) → Option Buffer
    → Outcome (KexecInfo × RealMode)
unfolding place_initrd write_parameters
setup_linux_bootloader_parameters m info r base offset cmdline initrd =
    elim (place_initrd m info r initrd) [
      | returned (info', start, size) ↦
          returned (info', write_parameters r base offset cmdline start size)
      | died d ↦ died d
    ]
