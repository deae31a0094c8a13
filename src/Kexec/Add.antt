-- ===== src/Kexec/Add.antt =====
-- kexec-tools/kexec/kexec.c: `add_segment` and `add_buffer`.
pub mod Laws
pub mod Buffer
pub mod Allocation
use Prim.Native.Nat.{bit_and}
use monoimage.Prelude.{
  ℕ, ◌+◌, ◌-◌, ◌%◌, Bool, true, false, List, [], ◌∷◌, ◌++◌, ltb, ◌==◌, if◌then◌else◌,
}
use monoimage.Kexec.{
  word, ulong_max, KexecSegment, KexecInfo, Machine, not_page_aligned, invalid_segment,
  sort_segments_failed, locate_hole_failed, Outcome, returned, died,
}
use monoimage.Kexec.Range.{valid_memory_range}
use monoimage.Kexec.Sort.{sort_segments}
use monoimage.Kexec.Hole.{HoleEnd, Request, mask_down, locate_hole}

-- `memsz` rounded up to a multiple of the page size
unfoldable pub round_to_page : Machine → ℕ → ℕ
round_to_page m memsz = mask_down m.page_size ((memsz + (m.page_size - 1)) % word)

-- The last byte of the segment; the sum is an `unsigned long`.
unfoldable pub last_byte : ℕ → ℕ → ℕ
last_byte base memsz = (base + memsz + word - 1) % word

-- The last part: the new segment stands behind the others. The warning at KEXEC_MAX_SEGMENTS is
-- left out, since it only prints.
unfoldable pub append_segment : KexecInfo → KexecSegment → KexecInfo
append_segment info s = record info { segment = info.segment ++ s ∷ [] }

unfoldable pub add_segment : Machine → KexecInfo → (buf bufsz base memsz : ℕ) → Outcome KexecInfo
add_segment m info buf bufsz base memsz =
    if memsz == 0
    then returned info
    else if bit_and base (m.page_size - 1) == 0
    then (if valid_memory_range m base (last_byte base (round_to_page m memsz))
        then returned (
            append_segment info (record {
              buf = buf;
              bufsz = if ltb memsz bufsz then memsz else bufsz;
              mem = base;
              memsz = round_to_page m memsz;
            }))
        else died invalid_segment)
    else died not_page_aligned

-- After the sort: a hole, and the segment in it.
unfoldable pub add_located :
    Machine → KexecInfo → (buf bufsz memsz : ℕ) → Outcome ℕ → Outcome (KexecInfo × ℕ)
add_located m info buf bufsz memsz (died d) = died d
add_located m info buf bufsz memsz (returned base) =
    if base == ulong_max
    then died locate_hole_failed
    else elim (add_segment m info buf bufsz base memsz) [
      | returned added ↦ returned (added, base)
      | died d ↦ died d
    ]

-- The size of the hole is `memsz`, and the other fields of the request are the caller's.
unfoldable pub add_buffer :
    Machine → KexecInfo → (buf bufsz : ℕ) → Request → HoleEnd → Outcome (KexecInfo × ℕ)
unfolding add_located
add_buffer m info buf bufsz q e =
    let sorted = sort_segments info in
    if sorted.1
    then add_located m sorted.0 buf bufsz q.size (locate_hole m sorted.0 q e)
    else died sort_segments_failed
