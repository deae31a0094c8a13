-- ===== src/Monoboot/Show.antt =====
-- monoboot/monoboot_cmds.c: the commands that show the files and the saved configuration, cmd_copy,
-- cmd_shell and cmd_conf.
pub mod Disk
use monoimage.Prelude.{
  ℕ, zero, suc, ◌+◌, ◌-◌, ◌%◌, ◌^◌, Bool, true, false, ◌||◌, Option, none, some, List, [], ◌∷◌,
  ◌++◌, if◌then◌else◌, Bytes, codes, length, drop,
}
use monoimage.CStr.{strncmp_eq, has_prefix}
use monoimage.Cmdline.{fgets}
use monoimage.Os.{Os, Trace}
use monoimage.Monoboot.Exec.{do_exec, do_tftp}

-- opendir and readdir of /images, chdir, stat of a name in the working directory, and what statvfs
-- says: the blocks that are available and all of them.
pub record Volume : Type 0 where
  pub names : Option (List Bytes)
  pub chdir_ok : Bytes → Bool
  pub size : (cwd name : Bytes) → Option ℕ
  pub room : Option (ℕ × ℕ)

-- A line that is printed. A number that is printed as an int is given by its 32 bits.
pub data Line : Type 0 where
  file : (size : ℕ) (name : Bytes) → Line
  summary : (used available total : ℕ) → Line

-- The result 0 or -1, the working directory behind it, and what was printed.
pub record Shown : Type 0 where
  pub ok : Bool
  pub cwd : Bytes
  pub lines : List Line

abbrev pub int_word : ℕ
int_word = 2 ^ 32

unfoldable pub is_hidden : Bytes → Bool
is_hidden name =
    strncmp_eq (codes ".") name 1
    || (strncmp_eq (codes "..") name 2 || strncmp_eq (codes "lost+found") name 10)

-- The loop over the directory: did every stat succeed, and the sum of the sizes?
pub record Listing : Type 0 where
  pub complete : Bool
  pub used : ℕ
  pub lines : List Line

unfoldable pub disk_loop : Volume → (cwd : Bytes) → List Bytes → (used : ℕ) → Listing
unfolding is_hidden
disk_loop v cwd [] used = record { complete = true; used = used; lines = [] }
disk_loop v cwd (name ∷ names) used =
    let rest = disk_loop v cwd names in
    let listed : Listing = elim (v.size cwd name) [
      | none ↦ record { complete = false; used = used; lines = [] }
      | some s ↦
          let later = rest ((used + s) % int_word) in
          record {
            complete = later.complete;
            used = later.used;
            lines = file (s % int_word) name ∷ later.lines;
          }
    ] in
    if is_hidden name then rest used else listed

abbrev pub go_to : Volume → (dir cwd : Bytes) → Bytes
go_to v dir cwd = if v.chdir_ok dir then dir else cwd

-- From the end of the loop on.
unfoldable pub show_summary : Volume → (cwd : Bytes) → Listing → Shown
show_summary v cwd l =
    let back = go_to v (codes "/") cwd in
    let summed : Shown = elim v.room [
      | none ↦ record { ok = false; cwd = back; lines = l.lines }
      | some (available, total) ↦ record {
        ok = true;
        cwd = back;
        lines = l.lines ++ summary l.used available total ∷ [];
      }
    ] in
    if l.complete then summed else record { ok = false; cwd = cwd; lines = l.lines }

unfoldable pub show_names : Volume → (cwd : Bytes) → List Bytes → Shown
unfolding disk_loop show_summary
show_names v cwd names = show_summary v cwd (disk_loop v cwd names 0)

unfoldable pub cmd_show_disk : Volume → (cwd : Bytes) → Shown
unfolding show_names
cmd_show_disk v cwd = elim v.names [
  | none ↦ record { ok = false; cwd = cwd; lines = [] }
  | some names ↦ show_names v (go_to v (codes "/images") cwd) names
]

-- fprintf with a text as its format and no arguments: what is printed, or undefined.
abbrev pub Format : Type 0
Format = Bytes → Option Bytes

-- The loop of `cmd_show_start`, with fuel for each line.
unfoldable pub start_loop : (fuel : ℕ) → Format → Bytes → Option Bytes
start_loop zero format text = some []
start_loop (suc fuel) format [] = some []
start_loop (suc fuel) format (b ∷ text) =
    let line = fgets 8000 (b ∷ text) in
    let rest = start_loop fuel format (drop (length line) (b ∷ text)) in
    elim (format line) [
      | none ↦ none
      | some printed ↦ elim rest [ none ↦ none | some more ↦ some (printed ++ more) ]
    ]

-- `none` is undefined behaviour: a format that asks for arguments, or no file mb.conf in the working
-- directory, whose null pointer is read.
unfoldable pub cmd_show_start : Format → Os → Trace → Option Bytes
unfolding start_loop
cmd_show_start format os t = elim (os.read_file t (codes "mb.conf")) [
  | none ↦ none
  | some text ↦ start_loop (length text) format text
]

-- The result is 0 in any case.
unfoldable pub cmd_copy : Os → (args : List Bytes) → Trace → Option Trace
cmd_copy os (name ∷ src ∷ dst ∷ rest) t =
    let copied : Option Trace = elim (do_tftp os src dst t) [
      | none ↦ none
      | some (r, t') ↦ some t'
    ] in
    if strncmp_eq src (codes "tftp") 4 || strncmp_eq dst (codes "tftp") 4 then copied else some t
cmd_copy os args t = some t

unfoldable pub cmd_shell : Os → Trace → Trace
unfolding do_exec
cmd_shell os t = (do_exec os (codes "/bin/ash") (codes "ash" ∷ []) t).1

-- All that it did is in comments.
unfoldable pub cmd_conf : Trace → Trace
cmd_conf t = t
