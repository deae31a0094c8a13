-- ===== src/Examples/BzCommand.antt =====
-- `kexec -l kernel --append=quiet --ramdisk=rd` with the kernel of Examples/BzImage, and a ramdisk of
-- a few bytes.
use monoimage.Prelude.{ℕ, ◌+◌, ◌≡◌, refl, true, some, [], ◌∷◌, codes, length, arith}
use monoimage.Image.{field_at, le_word}
use monoimage.Kexec.{KexecSegment, returned}
use monoimage.Kexec.Range.{is_ram, valid_memory_range}
use monoimage.Kexec.Sort.{sort_segments}
use monoimage.Kexec.Hole.{locate_hole, sane_align, mask_down, clip_start, clip_end}
use monoimage.Kexec.Hole.Locate.{IsServable}
use monoimage.Kexec.Add.{add_buffer, add_segment, round_to_page, last_byte, append_segment}
use monoimage.Kexec.Slurp.{ended, slurp_file}
use monoimage.Kexec.Setup.{
  Buffer, RealMode, initrd_request, initrd_limit, setup_linux_bootloader_parameters, copy_cmdline,
  setup_memory,
}
use monoimage.Kexec.BzImage.{
  kern16_size, setup_sects, real_mode_of, place_setup, regs_of, entry_of, Loaded, load_kernel,
  load_setup, do_bz_image_load, hooks_of,
}
use monoimage.Kexec.BzImage.Placed.{IsReady, IsMachine}
use monoimage.Kexec.BzImage.Command.{
  append, ramdisk, core, Files, bz_image_load, bz_image_load-IsReady,
}
use monoimage.Examples.Setup.{
  machine, low_ram, high_ram, no_segments, machine-IsLow, machine-IsAscending, machine-EndsLow,
}
use monoimage.Examples.Load.{text, reader, reader-Serves}
use monoimage.Examples.BzImage.{
  kernel, build, places, purgatory_segment, setup_segment, body, ready, kernel_block, kernel_setup,
  setup_serves, build-IsPlaced,
}

abbrev files : Files
files = record {
  open_file = λ name. some (record { size = length text; reader = reader; close_ok = true });
  buffer_at = 7000;
}

abbrev small_ramdisk : Buffer
small_ramdisk = record { address = 7000; size = length text }

abbrev ramdisk_segment : KexecSegment
ramdisk_segment = record { buf = 7000; bufsz = length text; mem = 536866816; memsz = 4096 }

abbrev loaded : Loaded
loaded = record ready {
  info = record {
    segment = setup_segment ∷ purgatory_segment ∷ body ∷ ramdisk_segment ∷ [];
    entry = 0;
  };
  real_mode = record ready.real_mode { initrd_start = 536866816; initrd_size = length text };
}

loads :
    bz_image_load 9 machine build files no_segments places
      (append (codes "debug") ∷ ramdisk (codes "rd") ∷ core ∷ append (codes "quiet") ∷ [])
      kernel
      (some (low_ram ∷ high_ram ∷ []))
    ≡ ended (returned (some loaded))
unfolding bz_image_load slurp_file do_bz_image_load load_setup load_kernel place_setup regs_of
    entry_of hooks_of kern16_size setup_sects real_mode_of field_at le_word
    setup_linux_bootloader_parameters initrd_limit copy_cmdline setup_memory add_buffer
    sort_segments locate_hole clip_end mask_down clip_start add_segment valid_memory_range last_byte
    round_to_page append_segment
loads = refl

ramdisk_serves : (r : RealMode) (size : ℕ) → IsServable machine (initrd_request r size)
unfolding is_ram sane_align initrd_limit
ramdisk_serves r size = record {
  low = machine-IsLow;
  ascending = machine-IsAscending;
  ends_low = machine-EndsLow;
  roundable = record {
    bits = 12;
    others = 20;
    total = refl;
    power = refl;
    min_low = omega arith;
    least_low = omega arith;
  };
}

is_machine : IsMachine machine build no_segments kernel (codes "quiet") small_ramdisk
is_machine = record {
  paged = record { bits = 12; others = 20; total = refl; power = refl };
  setup_serves = setup_serves (kern16_size kernel + 6);
  ramdisk_serves = ramdisk_serves (real_mode_of kernel) (length text);
  purgatory_placed = build-IsPlaced;
  small = omega arith;
}

bz_image_load-IsReady_example :
    IsReady machine build no_segments places kernel (codes "quiet") small_ramdisk loaded
bz_image_load-IsReady_example =
    bz_image_load-IsReady 9 machine build files no_segments places
      (append (codes "debug") ∷ ramdisk (codes "rd") ∷ core ∷ append (codes "quiet") ∷ []) kernel
      (codes "quiet") (codes "rd") text reader 0 (some (low_ram ∷ high_ram ∷ [])) loaded
      (tt, (tt, (tt, (tt, tt)))) refl refl refl reader-Serves (omega arith) is_machine
      (rw kernel_block (omega arith)) (rw kernel_setup (omega arith)) (omega arith) loads
