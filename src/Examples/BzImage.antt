-- ===== src/Examples/BzImage.antt =====
-- A kernel of 33000 bytes with seven sectors of setup code, loaded with the ramdisk of Examples/Setup.
use monoimage.Prelude.{
  ℕ, zero, suc, ◌+◌, ◌≡◌, refl, inl, none, some, [], ◌∷◌, ◌++◌, Bytes, codes, length, arith, All,
}
use monoimage.Image.{field_at, le_word}
use monoimage.Kexec.{KexecSegment, KexecInfo, returned}
use monoimage.Kexec.Range.{is_ram, valid_memory_range}
use monoimage.Kexec.Sort.{sort_segments}
use monoimage.Kexec.Hole.{locate_hole, sane_align, mask_down, clip_start, clip_end}
use monoimage.Kexec.Hole.Free.{IsPlaced}
use monoimage.Kexec.Hole.Place.{IsMultiple}
use monoimage.Kexec.Hole.Locate.{IsServable}
use monoimage.Kexec.Add.{add_buffer, add_segment, round_to_page, last_byte, append_segment}
use monoimage.Kexec.Setup.{
  RealMode, initrd_request, initrd_limit, setup_linux_bootloader_parameters, copy_cmdline,
  setup_memory, SystemMap,
}
use monoimage.Kexec.BzImage.{
  kern16_size, setup_sects, real_mode_of, Purgatory, BuildLoad, Places, setup_request, place_setup,
  regs_of, entry_of, Loaded, load_kernel, load_setup, do_bz_image_load, hooks_of,
}
use monoimage.Kexec.BzImage.Placed.{IsReady, IsMachine, plain, do_bz_image_load-IsReady}
use monoimage.Examples.Setup.{
  machine, low_ram, high_ram, no_segments, ramdisk, machine-IsLow, machine-IsAscending,
  machine-EndsLow,
}

abbrev pub zeros : ℕ → Bytes
zeros zero = []
zeros (suc n) = 0 ∷ zeros n

-- setup_sects, the version of the protocol and initrd_addr_max are not 0.
abbrev pub kernel : Bytes
kernel = zeros 497 ++ (7 ∷ zeros 20 ++ (3 ∷ 2 ∷ zeros 36 ++ (255 ∷ 255 ∷ 255 ∷ 55 ∷ zeros 32440)))

abbrev pub purgatory_segment : KexecSegment
purgatory_segment = record { buf = 9000; bufsz = 4000; mem = 647168; memsz = 4096 }

abbrev pub purgatory : Purgatory
purgatory = record { rel_addr = 647168; addr_of = λ name. 650000 }

abbrev pub build : BuildLoad
build info = returned (record { segment = purgatory_segment ∷ []; entry = 0 }, purgatory)

abbrev pub places : Places
places = record { kernel_at = 20000; real_mode_at = 60000 }

kernel_length : length kernel ≡ 33000
kernel_length = refl

pub kernel_setup : kern16_size kernel ≡ 4096
unfolding kern16_size setup_sects field_at le_word
kernel_setup = refl

abbrev pub block : RealMode
block = record {
  protocol_version = 515;
  initrd_addr_max = 939524095;
  loader_type = 0;
  loader_flags = 0;
  initrd_start = 0;
  initrd_size = 0;
  cl_magic = 0;
  cl_offset = 0;
  cmd_line_ptr = 0;
  cmdline = [];
}

pub kernel_block : real_mode_of kernel ≡ block
unfolding real_mode_of field_at le_word
kernel_block = refl

abbrev pub setup_segment : KexecSegment
setup_segment = record { buf = 60000; bufsz = 4102; mem = 638976; memsz = 8192 }

abbrev pub body : KexecSegment
body = record { buf = 24096; bufsz = 28904; mem = 1048576; memsz = 32768 }

abbrev ramdisk_segment : KexecSegment
ramdisk_segment = record { buf = 7000; bufsz = 100000; mem = 536768512; memsz = 102400 }

abbrev pub system_map : SystemMap
system_map = record {
  e820_map =
      record { addr = 256; size = 654080; type = 1 }
      ∷ record { addr = 1048576; size = 535822336; type = 1 }
      ∷ [];
  mem_size = record { ext_mem_k = 64512; alt_mem_k = 4294967295 };
}

abbrev pub ready : Loaded
ready = record {
  info = record {
    segment = setup_segment ∷ purgatory_segment ∷ body ∷ ramdisk_segment ∷ [];
    entry = 0;
  };
  real_mode = record block {
    loader_type = 255;
    initrd_start = 536768512;
    initrd_size = 100000;
    cl_magic = 41791;
    cl_offset = 4096;
    cmd_line_ptr = 643072;
    cmdline = codes "quiet" ++ 0 ∷ [];
  };
  regs = record { esi = 638976; esp = 650000; eip = 1048576; cs = 49184; ss = 36529 };
  hooks = none;
  map = some system_map;
}

loads :
    do_bz_image_load machine build no_segments places kernel
      (codes "quiet" ++ 0 ∷ [])
      (some ramdisk)
      plain
      (some (low_ram ∷ high_ram ∷ []))
    ≡ returned (some ready)
unfolding do_bz_image_load load_setup load_kernel place_setup regs_of entry_of hooks_of kern16_size
    setup_sects real_mode_of field_at le_word setup_linux_bootloader_parameters initrd_limit
    copy_cmdline setup_memory add_buffer sort_segments locate_hole clip_end mask_down clip_start
    add_segment valid_memory_range last_byte round_to_page append_segment
loads = refl

pub setup_serves : (size : ℕ) → IsServable machine (setup_request size)
unfolding is_ram sane_align
setup_serves size = record {
  low = machine-IsLow;
  ascending = machine-IsAscending;
  ends_low = machine-EndsLow;
  roundable = record {
    bits = 12;
    others = 20;
    total = refl;
    power = refl;
    min_low = omega arith;
    least_low = omega arith;
  };
}

ramdisk_serves : (r : RealMode) → IsServable machine (initrd_request r 100000)
unfolding is_ram sane_align initrd_limit
ramdisk_serves r = record {
  low = machine-IsLow;
  ascending = machine-IsAscending;
  ends_low = machine-EndsLow;
  roundable = record {
    bits = 12;
    others = 20;
    total = refl;
    power = refl;
    min_low = omega arith;
    least_low = omega arith;
  };
}

purgatory-IsPlaced :
    All (IsPlaced machine.memory_range) (purgatory_segment ∷ [])
    × All (λ s. IsMultiple machine.page_size s.mem) (purgatory_segment ∷ [])
unfolding is_ram
purgatory-IsPlaced =
    (((omega arith, omega arith, inl (refl, omega arith, omega arith)), tt), ((158, refl), tt))

pub build-IsPlaced :
    (i : KexecInfo) (p : Purgatory)
    → build no_segments ≡ returned (i, p)
    → All (IsPlaced machine.memory_range) i.segment
      × All (λ s. IsMultiple machine.page_size s.mem) i.segment
build-IsPlaced i p h =
    let same : i.segment ≡ purgatory_segment ∷ [] = cc h in rw same purgatory-IsPlaced

is_machine : IsMachine machine build no_segments kernel (codes "quiet") ramdisk
is_machine = record {
  paged = record { bits = 12; others = 20; total = refl; power = refl };
  setup_serves = setup_serves (kern16_size kernel + 6);
  ramdisk_serves = ramdisk_serves (real_mode_of kernel);
  purgatory_placed = build-IsPlaced;
  small = omega arith;
}

do_bz_image_load-IsReady_example :
    IsReady machine build no_segments places kernel (codes "quiet") ramdisk ready
do_bz_image_load-IsReady_example =
    do_bz_image_load-IsReady machine build no_segments places kernel (codes "quiet") ramdisk
      (some (low_ram ∷ high_ram ∷ [])) ready is_machine (rw kernel_block (omega arith))
      (rw kernel_setup (omega arith)) (omega arith) loads
