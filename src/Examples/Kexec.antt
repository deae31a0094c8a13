-- ===== src/Examples/Kexec.antt =====
-- A machine with 640K of RAM, as /proc/iomem shows it, and one segment, and a request for 8K more.
use monoimage.Prelude.{ℕ, ◌≤◌, ◌≡◌, ◌≢◌, ◌<◌, length, ◌↔◌, refl, true, inl, [], ◌∷◌, All, arith}
use mathlib.Core.List.{Perm}
use monoimage.Kexec.{
  ram, reserved, MemoryRange, KexecSegment, KexecInfo, Machine, returned, died, mem_range_overrun,
}
use monoimage.Kexec.Range.{valid_memory_range, InRam, valid_memory_range_iff, is_ram}
use monoimage.Kexec.Sort.{sort_segments}
use monoimage.Kexec.Sort.Laws.{IsSorted, IsApart, sort_segments_lem}
use monoimage.Kexec.Hole.{
  no_end, lowest, Request, free_ranges, sane_align, mask_down, clip_start, clip_end, locate_hole,
}
use monoimage.Kexec.Hole.Free.{IsPlaced}
use monoimage.Kexec.Hole.Locate.{IsServable, IsLocated, locate_hole-IsLocated}
use monoimage.Kexec.Hole.Place.{IsMultiple}
use monoimage.Kexec.Hole.Room.{ram_count, locate_hole-in_array, IsFull, locate_hole-overruns}
use monoimage.Kexec.Add.{add_segment, add_buffer, round_to_page, last_byte, append_segment}
use monoimage.Kexec.Add.Laws.{IsPaged}
use monoimage.Kexec.Add.Buffer.{IsAdded, add_buffer-IsAdded}
use monoimage.Kexec.Add.Allocation.{Allocates, taken, add_buffer-Allocates}

abbrev pub low_ram : MemoryRange
low_ram = record { start = 4096; last = 654336; type = ram }

abbrev pub rom : MemoryRange
rom = record { start = 654336; last = 655360; type = reserved }

abbrev pub machine : Machine
machine = record {
  mem_min = 0;
  mem_max = 4294967295;
  memory_range = low_ram ∷ rom ∷ [];
  page_size = 4096;
}

abbrev pub loaded : KexecSegment
loaded = record { buf = 100; bufsz = 5000; mem = 8192; memsz = 8192 }

abbrev pub later : KexecSegment
later = record { buf = 200; bufsz = 10; mem = 32768; memsz = 4096 }

abbrev pub info : KexecInfo
info = record { segment = later ∷ loaded ∷ []; entry = 0 }

abbrev pub in_order : KexecInfo
in_order = record { segment = loaded ∷ later ∷ []; entry = 0 }

abbrev request : Request
request = record { size = 8000; align = 0; least = 0; most = 4294967295 }

machine-IsServable : IsServable machine request
unfolding is_ram sane_align
machine-IsServable = record {
  low = ((λ e. (omega arith, omega arith)), ((λ e. (omega arith, omega arith)), tt));
  ascending = (
    (λ e. (omega arith, ((λ f. absurd (ground (arith, f))), tt))),
    ((λ e. absurd (ground (arith, e))), tt),
  );
  ends_low = ((λ e. omega arith), ((λ e. omega arith), tt));
  roundable = record {
    bits = 12;
    others = 20;
    total = refl;
    power = refl;
    min_low = omega arith;
    least_low = omega arith;
  };
}

pub machine-IsPaged : IsPaged machine
machine-IsPaged = record { bits = 12; others = 20; total = refl; power = refl }

All-IsPlaced : All (IsPlaced machine.memory_range) info.segment
unfolding is_ram
All-IsPlaced = (
  (omega arith, omega arith, inl (refl, omega arith, omega arith)),
  ((omega arith, omega arith, inl (refl, omega arith, omega arith)), tt),
)

ordered-IsPlaced : All (IsPlaced machine.memory_range) in_order.segment
ordered-IsPlaced = (All-IsPlaced.1.0, (All-IsPlaced.0, tt))

ordered-IsApart : IsApart in_order.segment
ordered-IsApart = ((omega arith, tt), (tt, tt))

All-paged : All (λ s. IsMultiple machine.page_size s.mem) info.segment
All-paged = ((8, refl), ((2, refl), tt))

abbrev new_segment : KexecSegment
new_segment = record { buf = 300; bufsz = 7000; mem = 16384; memsz = 8192 }

abbrev added : KexecInfo
added = record { segment = loaded ∷ later ∷ new_segment ∷ []; entry = 0 }

-- The place is the lowest one between the two segments.
located : locate_hole machine in_order request lowest ≡ returned 16384
unfolding locate_hole clip_end mask_down clip_start
located = refl

sorts : sort_segments info ≡ (in_order, true)
unfolding sort_segments
sorts = refl

adds : add_buffer machine info 300 7000 request lowest ≡ returned (added, 16384)
unfolding add_buffer sort_segments locate_hole clip_end mask_down clip_start add_segment
    valid_memory_range last_byte round_to_page append_segment
adds = refl

-- The free pages in front, between and behind the two segments.
frees :
    free_ranges machine.memory_range in_order.segment
    ≡ record { start = 4096; last = 8191; type = ram }
      ∷ record { start = 16384; last = 32767; type = ram }
      ∷ record { start = 36864; last = 654336; type = ram }
      ∷ []
unfolding free_ranges
frees = refl

valid_memory_range_iff_example : (valid_memory_range machine 8192 16383 ≡ true) ↔ (
    (8192 ≤ 16383)
    × InRam machine.memory_range 8192 16383
    × ((x : ℕ) → 8192 ≤ x → x ≤ 16383 → (machine.mem_min ≤ x) × (x ≤ machine.mem_max)))
valid_memory_range_iff_example = valid_memory_range_iff machine 8192 16383 machine-IsServable.low

sort_segments_lem_example :
    Perm (sort_segments info).0.segment info.segment
    × IsSorted (sort_segments info).0.segment
    × (((sort_segments info).1 ≡ true) ↔ IsApart (sort_segments info).0.segment)
sort_segments_lem_example = sort_segments_lem info (omega arith, (omega arith, tt))

locate_hole-IsLocated_example : IsLocated machine in_order request 16384
locate_hole-IsLocated_example =
    locate_hole-IsLocated machine in_order request lowest 16384 machine-IsServable ordered-IsApart
      ordered-IsPlaced located (λ e. omega (arith, e))

add_buffer-IsAdded_example : IsAdded machine info 300 7000 request added 16384
add_buffer-IsAdded_example =
    add_buffer-IsAdded machine info added 300 7000 request lowest 16384 machine-IsServable
      machine-IsPaged All-IsPlaced All-paged (omega arith) adds

add_buffer-Allocates_example :
    Allocates machine.memory_range request 16384 (taken info.segment) (taken added.segment)
add_buffer-Allocates_example =
    add_buffer-Allocates machine info added 300 7000 request lowest 16384 machine-IsServable
      machine-IsPaged All-IsPlaced All-paged (omega arith) adds

-- The map with the ROM has a range that is not RAM.
counted : ram_count machine.memory_range < length machine.memory_range
unfolding is_ram
counted = omega arith

locate_hole-in_array_example : locate_hole machine in_order request lowest ≢ died mem_range_overrun
locate_hole-in_array_example = locate_hole-in_array machine in_order request lowest counted

abbrev only_ram : Machine
only_ram = record machine { memory_range = low_ram ∷ [] }

only_ram-IsFull : All IsFull only_ram.memory_range
unfolding is_ram
only_ram-IsFull = ((refl, omega arith), tt)

lowest-ne-no_end : lowest ≢ no_end
lowest-ne-no_end e = cc

locate_hole-overruns_example :
    locate_hole only_ram (record { segment = []; entry = 0 }) request lowest
    ≡ died mem_range_overrun
locate_hole-overruns_example =
    locate_hole-overruns only_ram 0 request lowest only_ram-IsFull (omega arith) lowest-ne-no_end
