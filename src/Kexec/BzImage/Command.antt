-- ===== src/Kexec/BzImage/Command.antt =====
-- kexec-tools/kexec/arch/i386/kexec-bzImage.c: `bzImage_load`, from the results of getopt_long on.
use monoimage.Prelude.{
  ℕ, ◌+◌, ◌<◌, ◌≤◌, ◌≡◌, sym, ap, ◌∙◌, refl, All, true, Option, none, some, List, [], ◌∷◌, ◌++◌,
  Bytes, length,
}
use monoimage.Kexec.{MemoryRange, KexecInfo, Machine, Outcome, returned, died}
use monoimage.Kexec.Slurp.{Reader, Opened, Loop, ended, out_of_fuel, slurp_file}
use monoimage.Kexec.Slurp.Whole.{Serves, slurp_file-whole}
use monoimage.Kexec.Setup.{Buffer}
use monoimage.Kexec.BzImage.{
  Places, BuildLoad, LoadFlags, Loaded, kern16_size, real_mode_of, do_bz_image_load,
}
use monoimage.Kexec.BzImage.Placed.{IsMachine, IsReady, plain, do_bz_image_load-IsReady}

-- One result of getopt_long.
pub data BzOpt : Type 0 where
  debug : BzOpt
  append : Bytes → BzOpt
  ramdisk : Bytes → BzOpt
  real_mode : BzOpt
  -- an option of kexec itself, which is ignored
  core : BzOpt
  unknown : BzOpt

pub record BzOptions : Type 0 where
  pub command_line : Option Bytes
  pub ramdisk_file : Option Bytes
  pub flags : LoadFlags

abbrev pub no_options : BzOptions
no_options = record { command_line = none; ramdisk_file = none; flags = plain }

unfoldable pub set_option : BzOpt → BzOptions → Option BzOptions
set_option debug o =
    some (record o { flags = record { real_mode_entry = o.flags.real_mode_entry; debug = true } })
set_option (append text) o = some (record o { command_line = some text })
set_option (ramdisk name) o = some (record o { ramdisk_file = some name })
set_option real_mode o =
    some (record o { flags = record { real_mode_entry = true; debug = o.flags.debug } })
set_option core o = some o
set_option unknown o = none

unfoldable pub parse_options : List BzOpt → BzOptions → Option BzOptions
unfolding set_option
parse_options [] o = some o
parse_options (x ∷ xs) o = elim (set_option x o) [ none ↦ none | some o' ↦ parse_options xs o' ]

-- The command line with its NUL; without one there is not even that.
abbrev pub command_line_of : Option Bytes → Bytes
command_line_of none = []
command_line_of (some text) = text ++ 0 ∷ []

-- The files as `open` and fstat show them, and the address of the buffer that slurp_file fills.
pub record Files : Type 0 where
  pub open_file : Bytes → Option Opened
  pub buffer_at : ℕ

unfoldable pub buffer_of : Files → Loop Bytes → Loop (Option Buffer)
buffer_of fs out_of_fuel = out_of_fuel
buffer_of fs (ended (died d)) = ended (died d)
buffer_of fs (ended (returned bytes)) =
    ended (returned (some (record { address = fs.buffer_at; size = length bytes })))

unfoldable pub read_ramdisk : (fuel : ℕ) → Files → Option Bytes → Loop (Option Buffer)
unfolding buffer_of
read_ramdisk fuel fs none = ended (returned none)
read_ramdisk fuel fs (some name) = buffer_of fs (slurp_file fuel (fs.open_file name))

-- With the ramdisk that was read.
unfoldable pub load_with :
    Machine
    → BuildLoad
    → KexecInfo
    → Places
    → (kernel : Bytes) → BzOptions
    → Option (List MemoryRange)
    → Loop (Option Buffer)
    → Loop (Option Loaded)
load_with m build info at kernel o ranges out_of_fuel = out_of_fuel
load_with m build info at kernel o ranges (ended (died d)) = ended (died d)
load_with m build info at kernel o ranges (ended (returned initrd)) =
    ended (
      do_bz_image_load m build info at kernel (command_line_of o.command_line) initrd o.flags
        ranges)

-- `none` is the result -1, also after an unknown option.
unfoldable pub load_asked :
    (fuel : ℕ)
    → Machine
    → BuildLoad
    → Files
    → KexecInfo
    → Places
    → Option BzOptions
    → (kernel : Bytes) → Option (List MemoryRange)
    → Loop (Option Loaded)
unfolding read_ramdisk load_with
load_asked fuel m build fs info at none kernel ranges = ended (returned none)
load_asked fuel m build fs info at (some o) kernel ranges =
    load_with m build info at kernel o ranges (read_ramdisk fuel fs o.ramdisk_file)

unfoldable pub bz_image_load :
    (fuel : ℕ)
    → Machine
    → BuildLoad
    → Files
    → KexecInfo
    → Places
    → (opts : List BzOpt) → (kernel : Bytes) → Option (List MemoryRange)
    → Loop (Option Loaded)
unfolding parse_options load_asked
bz_image_load fuel m build fs info at opts kernel ranges =
    load_asked fuel m build fs info at (parse_options opts no_options) kernel ranges

-- An option that asks neither for --debug nor for --real-mode, and is known.
abbrev pub IsPlainOpt : BzOpt → Type 0
IsPlainOpt debug = ⊥
IsPlainOpt real_mode = ⊥
IsPlainOpt unknown = ⊥
IsPlainOpt o = Unit

-- The last command line and the last ramdisk of the options.
abbrev pub last_append : List BzOpt → Option Bytes
last_append [] = none
last_append (append text ∷ opts) = elim (last_append opts) [
  | some later ↦ some later
  | none ↦ some text
]
last_append (x ∷ opts) = last_append opts

abbrev pub last_ramdisk : List BzOpt → Option Bytes
last_ramdisk [] = none
last_ramdisk (ramdisk name ∷ opts) = elim (last_ramdisk opts) [
  | some later ↦ some later
  | none ↦ some name
]
last_ramdisk (x ∷ opts) = last_ramdisk opts

abbrev or_else : Option Bytes → Option Bytes → Option Bytes
or_else (some a) b = some a
or_else none b = b

or_else-later :
    (later : Option Bytes) (text : Bytes) (before : Option Bytes)
    → or_else later (some text) ≡ or_else (elim later [ some a ↦ some a | none ↦ some text ]) before
or_else-later none text before = refl
or_else-later (some a) text before = refl

abbrev updated : Option Bytes → Option Bytes → BzOptions → BzOptions
updated line name o = record {
  command_line = or_else line o.command_line;
  ramdisk_file = or_else name o.ramdisk_file;
  flags = o.flags;
}

-- The options are read from the first to the last, and a later one takes the place of an earlier one.
parse_options-last :
    (opts : List BzOpt) (o : BzOptions)
    → All IsPlainOpt opts
    → parse_options opts o ≡ some (updated (last_append opts) (last_ramdisk opts) o)
unfolding parse_options set_option
parse_options-last [] o plain_opts = refl
parse_options-last (debug ∷ opts) o plain_opts = absurd plain_opts.0
parse_options-last (real_mode ∷ opts) o plain_opts = absurd plain_opts.0
parse_options-last (unknown ∷ opts) o plain_opts = absurd plain_opts.0
parse_options-last (core ∷ opts) o plain_opts = parse_options-last opts o plain_opts.1
parse_options-last (append text ∷ opts) o plain_opts =
    parse_options-last opts (record o { command_line = some text }) plain_opts.1
    ∙ ap
        (λ c. some (record {
          command_line = c;
          ramdisk_file = or_else (last_ramdisk opts) o.ramdisk_file;
          flags = o.flags;
        }))
        (or_else-later (last_append opts) text o.command_line)
parse_options-last (ramdisk name ∷ opts) o plain_opts =
    parse_options-last opts (record o { ramdisk_file = some name }) plain_opts.1
    ∙ ap
        (λ c. some (record {
          command_line = or_else (last_append opts) o.command_line;
          ramdisk_file = c;
          flags = o.flags;
        }))
        (or_else-later (last_ramdisk opts) name o.ramdisk_file)

ended_inj : {A : Type 0} {a b : Outcome A} → ended a ≡ ended b → a ≡ b
ended_inj {a} h = ap (λ l. elim l [ ended x ↦ x | out_of_fuel ↦ a ]) h

-- The ramdisk is read whole.
read_ramdisk-whole :
    (fuel : ℕ) (fs : Files) (name text : Bytes) (reader : Reader) (calm : ℕ)
    → fs.open_file name ≡ some (record { size = length text; reader = reader; close_ok = true })
    → Serves reader text calm
    → calm + length text < fuel
    → read_ramdisk fuel fs (some name)
      ≡ ended (returned (some (record { address = fs.buffer_at; size = length text })))
unfolding read_ramdisk
read_ramdisk-whole fuel fs name text reader calm opened serves enough =
    ap (λ o. buffer_of fs (slurp_file fuel o)) opened
    ∙ ap (buffer_of fs) (slurp_file-whole reader text calm fuel serves enough)

-- Where `bzImage_load` returns for options without --real-mode and --debug, of which at least one names a
-- command line and at least one a ramdisk, the last command line and the whole file of the last ramdisk
-- are taken, and the kernel is ready as `do_bzImage_load` makes it: in each step of the loading the ranges
-- of RAM in the memory map are in order and end below 4G by more than the alignment, a page has a power
-- of two of bytes, and the segments before are in RAM. The kernel's protocol is 2.00 or later, it is
-- longer than its setup, and the ramdisk file is not empty and can be read.
pub bz_image_load-IsReady :
    (fuel : ℕ) (m : Machine) (build : BuildLoad) (fs : Files) (info : KexecInfo) (at : Places)
    (opts : List BzOpt) (kernel line name text : Bytes) (reader : Reader) (calm : ℕ)
    (ranges : Option (List MemoryRange)) (l : Loaded)
    → All IsPlainOpt opts
    → last_append opts ≡ some line
    → last_ramdisk opts ≡ some name
    → fs.open_file name ≡ some (record { size = length text; reader = reader; close_ok = true })
    → Serves reader text calm
    → calm + length text < fuel
    → IsMachine m build info kernel line (record { address = fs.buffer_at; size = length text })
    → 512 ≤ (real_mode_of kernel).protocol_version
    → kern16_size kernel < length kernel
    → 0 < length text
    → bz_image_load fuel m build fs info at opts kernel ranges ≡ ended (returned (some l))
    → IsReady m build info at kernel line (record { address = fs.buffer_at; size = length text }) l
unfolding bz_image_load load_with load_asked
bz_image_load-IsReady fuel m build fs info at opts kernel line name text reader calm ranges l
      plain_opts last_line last_file opened serves enough ok version body_pos pos h =
    let o : BzOptions = record {
      command_line = some line;
      ramdisk_file = some name;
      flags = plain;
    } in
    let asked : parse_options opts no_options ≡ some o =
      parse_options-last opts no_options plain_opts ∙ rw (last_line, last_file) refl in
    do_bz_image_load-IsReady m build info at kernel line
      (record { address = fs.buffer_at; size = length text }) ranges l ok version body_pos pos
      (ended_inj (
        ap (load_with m build info at kernel o ranges)
          (sym (read_ramdisk-whole fuel fs name text reader calm opened serves enough))
        ∙ ap (λ a. load_asked fuel m build fs info at a kernel ranges) (sym asked)
        ∙ h))
