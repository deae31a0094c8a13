-- ===== src/Examples/Setup.antt =====
-- A machine with 512M of RAM, as /proc/iomem shows it, and a ramdisk of 100000 bytes.
use monoimage.Prelude.{
  ℕ, ◌≤◌, ◌≡◌, ◌↔◌, refl, none, some, List, [], ◌∷◌, ◌++◌, if◌then◌else◌, Bytes, codes, length,
  take, drop, min, All, arith,
}
use monoimage.CStr.{has_prefix}
use monoimage.Kexec.{
  RangeType, ram, reserved, MemoryRange, KexecSegment, KexecInfo, Machine, returned,
}
use monoimage.Kexec.Range.{IsLow, is_ram, valid_memory_range}
use monoimage.Kexec.Sort.{sort_segments}
use monoimage.Kexec.Hole.{locate_hole, sane_align, mask_down, clip_start, clip_end}
use monoimage.Kexec.Hole.Free.{IsAscending}
use monoimage.Kexec.Hole.Place.{EndsLow}
use monoimage.Kexec.Hole.Locate.{IsServable}
use monoimage.Kexec.Add.{add_buffer, add_segment, round_to_page, last_byte, append_segment}
use monoimage.Kexec.Memory.{
  Scan, max_memory_ranges, get_memory_ranges, range_of, type_of, above_table,
}
use monoimage.Kexec.Memory.Lines.{unlines, named_ranges}
use monoimage.Kexec.Memory.Bounds.{IsBounded, get_memory_ranges_bounds}
use monoimage.Kexec.Setup.{
  SystemMap, setup_memory, e820max, RealMode, Buffer, initrd_request, initrd_limit,
  setup_linux_bootloader_parameters, copy_cmdline,
}
use monoimage.Kexec.Setup.Map.{Has, E820Has, setup_memory-Has}
use monoimage.Kexec.Setup.Ramdisk.{IsPassed, setup_linux_bootloader_parameters-IsPassed}

-- sscanf on the lines of this machine.
abbrev scan : Scan
scan line =
    if has_prefix (codes "00000000-0009fbff : ") line
    then some (0, 654335, drop 20 line)
    else if has_prefix (codes "00100000-1fffffff : ") line
    then some (1048576, 536870911, drop 20 line)
    else none

abbrev lines : List Bytes
lines =
    codes "00000000-0009fbff : System RAM"
    ∷ codes "000c0000-000c7fff : Video ROM"
    ∷ codes "00100000-1fffffff : System RAM"
    ∷ []

abbrev pub low_ram : MemoryRange
low_ram = record { start = 256; last = 654336; type = ram }

abbrev pub rom : MemoryRange
rom = record { start = 786432; last = 819200; type = reserved }

abbrev pub high_ram : MemoryRange
high_ram = record { start = 1048576; last = 536870912; type = ram }

names : named_ranges scan lines ≡ low_ram ∷ high_ram ∷ []
unfolding range_of has_prefix type_of above_table
names = refl

get_memory_ranges_bounds_example :
    (rs : List MemoryRange) × (get_memory_ranges scan (some (unlines lines)) ≡ some rs)
    × (length rs ≤ max_memory_ranges)
    × All IsBounded rs
get_memory_ranges_bounds_example = get_memory_ranges_bounds scan (unlines lines)

setup_memory-Has_example :
    (m : SystemMap) × (setup_memory (some (low_ram ∷ high_ram ∷ [])) ≡ returned m)
    × (length m.e820_map ≡ min e820max (length (low_ram ∷ high_ram ∷ [])))
    × ((t : RangeType) (x : ℕ)
        → Has t x (take e820max (low_ram ∷ high_ram ∷ [])) ↔ E820Has t x m.e820_map)
setup_memory-Has_example =
    setup_memory-Has low_ram (high_ram ∷ [])
      ((omega arith, omega arith), ((omega arith, omega arith), tt))

abbrev pub machine : Machine
machine = record {
  mem_min = 0;
  mem_max = 4294967295;
  memory_range = low_ram ∷ rom ∷ high_ram ∷ [];
  page_size = 4096;
}

abbrev pub no_segments : KexecInfo
no_segments = record { segment = []; entry = 0 }

abbrev pub ramdisk : Buffer
ramdisk = record { address = 7000; size = 100000 }

abbrev block : RealMode
block = record {
  protocol_version = 515;
  initrd_addr_max = 939524095;
  loader_type = 0;
  loader_flags = 0;
  initrd_start = 0;
  initrd_size = 0;
  cl_magic = 0;
  cl_offset = 0;
  cmd_line_ptr = 0;
  cmdline = [];
}

abbrev placed : KexecSegment
placed = record { buf = 7000; bufsz = 100000; mem = 536768512; memsz = 102400 }

abbrev passed : RealMode
passed = record block {
  loader_type = 255;
  initrd_start = 536768512;
  initrd_size = 100000;
  cl_magic = 41791;
  cl_offset = 2560;
  cmd_line_ptr = 592384;
  cmdline = codes "quiet" ++ 0 ∷ [];
}

passes :
    setup_linux_bootloader_parameters machine no_segments block 589824 2560
      (codes "quiet" ++ 0 ∷ [])
      (some ramdisk)
    ≡ returned (record { segment = placed ∷ []; entry = 0 }, passed)
unfolding setup_linux_bootloader_parameters initrd_limit copy_cmdline add_buffer sort_segments
    locate_hole clip_end mask_down clip_start add_segment valid_memory_range last_byte round_to_page
    append_segment
passes = refl

pub machine-IsLow : All IsLow machine.memory_range
unfolding is_ram
machine-IsLow = (
  (λ e. (omega arith, omega arith)),
  ((λ e. (omega arith, omega arith)), ((λ e. (omega arith, omega arith)), tt)),
)

pub machine-IsAscending : IsAscending machine.memory_range
unfolding is_ram
machine-IsAscending = (
  (λ e. (omega arith, ((λ f. absurd (ground (arith, f))), ((λ f. omega arith), tt)))),
  ((λ e. absurd (ground (arith, e))), ((λ e. (omega arith, tt)), tt)),
)

pub machine-EndsLow : EndsLow 4096 machine.memory_range
unfolding is_ram
machine-EndsLow = ((λ e. omega arith), ((λ e. omega arith), ((λ e. omega arith), tt)))

machine-IsServable : IsServable machine (initrd_request block 100000)
unfolding is_ram sane_align initrd_limit
machine-IsServable = record {
  low = machine-IsLow;
  ascending = machine-IsAscending;
  ends_low = machine-EndsLow;
  roundable = record {
    bits = 12;
    others = 20;
    total = refl;
    power = refl;
    min_low = omega arith;
    least_low = omega arith;
  };
}

setup_linux_bootloader_parameters-IsPassed_example :
    IsPassed machine no_segments block
      (codes "quiet")
      ramdisk
      (record { segment = placed ∷ []; entry = 0 })
      passed
setup_linux_bootloader_parameters-IsPassed_example =
    setup_linux_bootloader_parameters-IsPassed machine no_segments
      (record { segment = placed ∷ []; entry = 0 }) block passed 589824 2560 (codes "quiet") ramdisk
      machine-IsServable (record { bits = 12; others = 20; total = refl; power = refl }) tt tt
      (omega arith) passes
