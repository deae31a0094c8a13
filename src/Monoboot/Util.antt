-- ===== src/Monoboot/Util.antt =====
-- monoboot/monoboot_util.c: what /proc says about the console and the mounts.
use monoimage.Prelude.{
  ℕ, ◌+◌, ◌-◌, Bool, true, false, ◌||◌, Option, none, some, [], ◌∷◌, ◌++◌, ltb, ◌==◌, if◌then◌else◌,
  Bytes, codes, length, take,
}
use monoimage.CStr.{has_prefix, strstr, span_until}
use monoimage.Os.{Os, Trace}

-- The result of `get_kernel_console`: NULL, a text, or a loop past the end of the line.
pub data Console : Type 0 where
  null : Console
  found : Bytes → Console
  runs_off : Console

-- The first loop: it stops at `console=`, or eight bytes before the end.
unfoldable pub console_scan : Bytes → Option Bytes
console_scan [] = none
console_scan (x ∷ s) =
    let rest = console_scan s in
    if has_prefix (codes "console=") (x ∷ s)
    then some (x ∷ s)
    else if length (x ∷ s) == 8
    then some (x ∷ s)
    else rest

-- The second loop stops at a space, a newline or NUL.
abbrev pub ends_console : ℕ → Bool
ends_console c = c == 32 || c == 10

-- What follows the reading: the test `(p - cmdline) < len` holds wherever the first loop stops.
unfoldable pub console_of : Bytes → Console
unfolding console_scan span_until
console_of cmdline = elim (console_scan cmdline) [
  | none ↦ runs_off
  | some p ↦
      if ltb (length cmdline - length p) (length cmdline)
      then found (span_until ends_console p).0
      else null
]

-- The read takes at most MB_CMDLINE_MAX bytes; what stands behind them in the array is taken to be a
-- NUL.
unfoldable pub get_kernel_console : Os → Trace → Console
unfolding console_of
get_kernel_console os t = elim (os.read_file t (codes "/proc/cmdline")) [
  | none ↦ null
  | some text ↦ console_of (take 255 text)
]

-- MB_CM_YES, MB_CM_NO, MB_CM_FAIL
pub data Mounted : Type 0 where
  mounted : Mounted
  not_mounted : Mounted
  cannot_tell : Mounted

-- MB_CM_MAX
abbrev pub read_max : ℕ
read_max = 32

-- The loop over fgets, which returns after a newline or after `read_max - 1` bytes: `buf` holds the
-- bytes of the current call.
unfoldable pub contains : Bytes → Bytes → Bool
contains buf mountpoint = elim (strstr buf mountpoint) [ some _ ↦ true | none ↦ false ]

-- At the end of the file there is one more text, unless nothing is left.
unfoldable pub last_text : Bytes → Bytes → Bool
unfolding contains
last_text mountpoint [] = false
last_text mountpoint (x ∷ buf) = contains (x ∷ buf) mountpoint

unfoldable pub mounts_loop : Bytes → (buf : Bytes) → (text : Bytes) → Bool
unfolding last_text
mounts_loop mountpoint buf [] = last_text mountpoint buf
mounts_loop mountpoint buf (x ∷ text) =
    let full = buf ++ x ∷ [] in
    let ends = x == 10 || length full + 1 == read_max in
    let rest = mounts_loop mountpoint (if ends then [] else full) text in
    if ends then (contains full mountpoint || rest) else rest

unfoldable pub check_mounted : Os → Bytes → Trace → Mounted
unfolding mounts_loop
check_mounted os mountpoint t = elim (os.read_file t (codes "/proc/mounts")) [
  | none ↦ cannot_tell
  | some text ↦ if mounts_loop mountpoint [] text then mounted else not_mounted
]
