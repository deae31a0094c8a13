-- ===== src/Examples/Load.antt =====
-- A kernel file of a few bytes that is read, loaded into the memory of Examples/Kexec, and given to
-- the system; and the options of the console.
use monoimage.Prelude.{
  ℕ, zero, suc, ◌<◌, ◌≡◌, refl, true, false, inl, inr, Option, none, some, List, [], ◌∷◌, ◌==◌,
  if◌then◌else◌, Bytes, codes, length, take, drop, All, arith, ◌⊎◌, ◌≤◌, Bool-cases,
}
use monoimage.CStr.{strcmp_eq, has_prefix}
use monoimage.Kexec.{MemoryRange, returned}
use monoimage.Kexec.Range.{valid_memory_segment, valid_memory_range, is_ram}
use monoimage.Kexec.Sort.{sort_segments}
use monoimage.Kexec.Hole.Place.{EndsLow}
use monoimage.Kexec.Slurp.{Reader, got, again, Loop, ended, slurp_file, slurp_decompress_file}
use monoimage.Kexec.Slurp.Whole.{Serves, Ends, slurp_file-whole, slurp_decompress_file-whole}
use monoimage.Kexec.Load.{
  FileType, Platform, choose_type, first_type, submitted, my_load, all_valid,
  arch_compat_trampoline,
}
use monoimage.Kexec.Load.Submitted.{IsWords, LoadsWords, IsSubmitted, my_load-IsSubmitted}
use monoimage.Kexec.ArchOptions.{
  ArchOpt, console_serial, serial, serial_baud, ArchOptions, default_options, Strtoul,
}
use monoimage.Kexec.Main.{
  load, exec, type_is, Flags, Answers, default_flags, go_on, parse_flags, loads, syncs,
  downs_interfaces, starts_kernel, replaced, status, main,
}
use monoimage.Kexec.Main.Modes.{is_loaded, load_status, load_flags, main-load, main-exec}
use monoimage.Examples.Kexec.{machine, low_ram, rom, info, in_order}

abbrev pub text : Bytes
text = codes "kernel"

-- Its first call is interrupted.
abbrev slow_reader : Reader
slow_reader k progress room = if k == 0 then again else got (take room (drop progress text))

abbrev pub reader : Reader
reader k progress room = got (take room (drop progress text))

slow_progress :
    (k p room : ℕ)
    → p < length text
    → 0 < room
    → ((slow_reader k p room ≡ again) × (k < 1))
      ⊎ ((m : ℕ) × (0 < m) × (m ≤ room) × (slow_reader k p room ≡ got (take m (drop p text))))
slow_progress zero p room below pos = inl (refl, omega arith)
slow_progress (suc k) p room below pos = inr (room, pos, omega arith, ground arith)

slow-Serves : Serves slow_reader text 1
slow-Serves = record { progress = slow_progress }

pub reader-Serves : Serves reader text 0
reader-Serves = record { progress = λ k p room below pos. inr (room, pos, omega arith, refl) }

take-empty : (n : ℕ) → take n (drop (length text) text) ≡ []
take-empty zero = refl
take-empty (suc n) = refl

reader-Ends : Ends reader text
reader-Ends = record { at_end = λ k room. rw (take-empty room) refl }

slurp_file-whole_example :
    slurp_file 8 (some (record { size = length text; reader = slow_reader; close_ok = true }))
    ≡ ended (returned text)
slurp_file-whole_example = slurp_file-whole slow_reader text 1 8 slow-Serves (omega arith)

slurp_decompress_file-whole_example :
    slurp_decompress_file 7 (some (record { reader = reader; close_ok = true }))
    ≡ ended (returned text)
slurp_decompress_file-whole_example =
    slurp_decompress_file-whole reader text reader-Serves reader-Ends (omega arith) 7 (omega arith)

-- The one file type of this example: it knows a file by its first byte, and loads two segments.
abbrev toy : FileType
toy = record {
  name = codes "toy";
  probe = has_prefix (codes "k");
  load = λ buf start. returned (some info);
}

abbrev platform : Platform
platform = record {
  machine = some (codes "i686");
  compat_entry = λ i. none;
  ranges = some (low_ram ∷ rom ∷ []);
}

platform-EndsLow : (ranges : List MemoryRange) → platform.ranges ≡ some ranges → EndsLow 1 ranges
unfolding is_ram
platform-EndsLow ranges e =
    let same : ranges ≡ low_ram ∷ rom ∷ [] = cc e in
    rw same ((λ r. omega arith), ((λ r. omega arith), tt))

info-IsWords : All IsWords info.segment
info-IsWords = ((omega arith, omega arith), ((omega arith, omega arith), tt))

toy-LoadsWords : LoadsWords toy
toy-LoadsWords buf i h = let same : info ≡ i = cc h in rw (← same) info-IsWords

chosen-LoadsWords :
    (f : FileType) (buf : Bytes) → choose_type none (toy ∷ []) buf ≡ some f → LoadsWords f
unfolding choose_type first_type
chosen-LoadsWords f buf c = elim (Bool-cases (has_prefix (codes "k") buf)) [
  | inl e ↦ let same : toy ≡ f = ground (arith, c, e) in rw (← same) toy-LoadsWords
  | inr e ↦ absurd (ground (arith, c, e))
]

submits :
    my_load machine platform none (toy ∷ []) 0 (some (ended (returned text)))
    ≡ submitted (record { info = in_order; flags = 0 })
unfolding my_load choose_type first_type has_prefix strcmp_eq arch_compat_trampoline all_valid
    valid_memory_segment valid_memory_range sort_segments
submits = refl

my_load-IsSubmitted_example :
    (buf : Bytes) × (◌≡◌ {A = Option (Loop Bytes)}
      (some (ended (returned text)))
      (some (ended (returned buf))))
    × IsSubmitted machine platform none (toy ∷ []) buf (record { info = in_order; flags = 0 })
my_load-IsSubmitted_example =
    my_load-IsSubmitted machine platform none (toy ∷ []) 0 (some (ended (returned text)))
      (record { info = in_order; flags = 0 }) platform-EndsLow chosen-LoadsWords submits

-- strtoul on one text.
abbrev strtoul : Strtoul
strtoul s base = if strcmp_eq s (codes "38400") then (38400, []) else (0, s)

abbrev console : List ArchOpt
console = console_serial ∷ serial (codes "ttyS1") ∷ serial_baud (codes "38400") ∷ []

abbrev chosen : ArchOptions
chosen = record default_options { on_serial = true; base = 760; baud = 38400 }

-- A system that takes the kernel and starts it.
abbrev answers : Answers
answers = record {
  arch_ok = true;
  unload_ok = true;
  load_end = λ g. my_load machine platform g.type (toy ∷ []) 0 (some (ended (returned text)));
  submit_ok = λ s. true;
  shutdown_ok = true;
  reboot_ok = true;
}

main-load_example :
    (g : Flags) × (parse_flags (type_is (codes "toy") ∷ []) default_flags ≡ go_on g)
    × (main answers (type_is (codes "toy") ∷ load ∷ []) ≡ (
      loads (answers.load_end (load_flags g))
          ∷ (if is_loaded answers (answers.load_end (load_flags g)) then syncs ∷ [] else []),
      load_status answers (answers.load_end (load_flags g)),
    ))
main-load_example = main-load answers refl (type_is (codes "toy") ∷ []) (tt, tt)

main-exec_example : main answers (exec ∷ []) ≡ (
  syncs ∷ downs_interfaces ∷ starts_kernel ∷ [],
  if answers.reboot_ok then replaced else status false,
)
main-exec_example = main-exec answers refl [] tt
