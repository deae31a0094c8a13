-- ===== src/Kexec/Load.antt =====
-- kexec-tools/kexec/kexec.c: `my_load`, which reads a kernel, has it loaded by the first file type
-- that knows it, checks the segments and gives them to the system; and `arch_compat_trampoline` of
-- kexec-tools/kexec/arch/i386/kexec-x86.c. `update_purgatory`, which changes only the contents of the
-- purgatory's own buffer, is in Kexec/Purgatory.
pub mod Submitted
use Prim.Native.Nat.{bit_or}
use monoimage.Prelude.{
  ℕ, ◌+◌, ◌*◌, ◌^◌, Bool, true, false, ◌&&◌, ◌||◌, Option, none, some, List, [], ◌∷◌, if◌then◌else◌,
  Bytes, codes,
}
use monoimage.CStr.{strcmp_eq}
use monoimage.Kexec.{MemoryRange, KexecSegment, KexecInfo, Machine, Die, Outcome, returned, died}
use monoimage.Kexec.Range.{valid_memory_segment}
use monoimage.Kexec.Sort.{sort_segments}
use monoimage.Kexec.Slurp.{Loop, ended, out_of_fuel}

-- An entry of `file_type`: does `probe` return 0 or more, and what does `load` make of the segments?
-- `none` is a negative result of `load`.
pub record FileType : Type 0 where
  pub name : Bytes
  pub probe : Bytes → Bool
  pub load : Bytes → KexecInfo → Outcome (Option KexecInfo)

-- What the program finds around it: the type of the machine from uname, the address of
-- `compat_x86_64` in the purgatory if there is one, and the memory map of `get_memory_ranges`.
pub record Platform : Type 0 where
  pub machine : Option Bytes
  pub compat_entry : KexecInfo → Option ℕ
  pub ranges : Option (List MemoryRange)

unfoldable pub first_type : (FileType → Bool) → List FileType → Option FileType
first_type test [] = none
first_type test (f ∷ fs) = let later = first_type test fs in if test f then some f else later

-- A file of another type than the one that was asked for is refused, whether or not it has a type.
unfoldable pub choose_type : Option Bytes → List FileType → Bytes → Option FileType
unfolding first_type
choose_type none types buf = first_type (λ f. f.probe buf) types
choose_type (some type) types buf = elim (first_type (λ f. strcmp_eq type f.name) types) [
  | none ↦ none
  | some f ↦ if f.probe buf then some f else none
]

abbrev pub arch_x86_64 : ℕ
arch_x86_64 = 62 * 2 ^ 16

abbrev pub is_i386 : Bytes → Bool
is_i386 machine =
    strcmp_eq machine (codes "i386")
    || (strcmp_eq machine (codes "i486")
        || (strcmp_eq machine (codes "i586") || strcmp_eq machine (codes "i686")))

-- KEXEC_ARCH_DEFAULT is 0. On x86_64 the entry is that of the purgatory.
unfoldable pub arch_compat_trampoline : Platform → KexecInfo → (flags : ℕ) → Option (KexecInfo × ℕ)
arch_compat_trampoline p info flags = elim p.machine [
  | none ↦ none
  | some machine ↦
      let on_x86_64 : Option (KexecInfo × ℕ) = elim (p.compat_entry info) [
        | none ↦ none
        | some entry ↦ some (record info { entry = entry }, bit_or flags arch_x86_64)
      ] in
      if is_i386 machine
      then some (info, flags)
      else if strcmp_eq machine (codes "x86_64")
      then on_x86_64
      else none
]

unfoldable pub all_valid : Machine → List KexecSegment → Bool
all_valid m [] = true
all_valid m (s ∷ rest) =
    let later = all_valid m rest in if valid_memory_segment m s then later else false

-- The arguments of the system call.
pub record Submission : Type 0 where
  pub info : KexecInfo
  pub flags : ℕ

-- How `my_load` ends: it returns -1, it makes the system call, the program exits, or the file is
-- read forever.
pub data LoadEnd : Type 0 where
  refused : LoadEnd
  submitted : Submission → LoadEnd
  exited : Die → LoadEnd
  never : LoadEnd

abbrev pub no_info : KexecInfo
no_info = record { segment = []; entry = 0 }

-- The two tests of the segments, and the system call.
unfoldable pub check_and_submit : Machine → KexecInfo → (flags : ℕ) → LoadEnd
unfolding all_valid
check_and_submit m info flags =
    let sorted = sort_segments info in
    if all_valid m info.segment && sorted.1
    then submitted (record { info = sorted.0; flags = flags })
    else refused

unfoldable pub after_load : Machine → Platform → (flags : ℕ) → Outcome (Option KexecInfo) → LoadEnd
unfolding arch_compat_trampoline check_and_submit
after_load m p flags (died d) = exited d
after_load m p flags (returned none) = refused
after_load m p flags (returned (some info)) = elim (arch_compat_trampoline p info flags) [
  | none ↦ refused
  | some (info', flags') ↦ check_and_submit m info' flags'
]

unfoldable pub load_as :
    Machine → Platform → Option Bytes → List FileType → (flags : ℕ) → Bytes → LoadEnd
unfolding choose_type after_load
load_as m p type types flags buf = elim p.ranges [
  | none ↦ refused
  | some ranges ↦ elim (choose_type type types buf) [
    | none ↦ refused
    | some f ↦ after_load (record m { memory_range = ranges }) p flags (f.load buf no_info)
  ]
]

-- `kernel` is what `slurp_decompress_file` makes of the file, if the command line names one.
unfoldable pub my_load :
    Machine → Platform → Option Bytes → List FileType → (flags : ℕ) → Option (Loop Bytes) → LoadEnd
unfolding load_as
my_load m p type types flags none = refused
my_load m p type types flags (some out_of_fuel) = never
my_load m p type types flags (some (ended (died d))) = exited d
my_load m p type types flags (some (ended (returned buf))) = load_as m p type types flags buf
