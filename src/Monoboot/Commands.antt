-- ===== src/Monoboot/Commands.antt =====
-- monoboot/monoboot_cmds.c: the commands that boot an image and write the configuration.
pub mod Saved
pub mod Boot
use monoimage.Prelude.{
  ℕ, ◌+◌, Bool, true, false, Option, none, some, List, [], ◌∷◌, ◌++◌, ltb, ◌==◌, if◌then◌else◌,
  Bytes, codes, length, not,
}
use monoimage.CStr.{has_prefix, strncmp_eq}
use monoimage.Os.{Os, Trace, Event, wrote, renamed, replaced}
use monoimage.Confuse.{
  Confuse, StrOption, bootonce, tryonce, default, lasttry, lastboot, ImageSection,
}
use monoimage.Monoboot.Exec.{do_exec, kexec_binary, mount_binary}
use monoimage.Monoboot.Util.{
  Console, null, found, runs_off, Mounted, mounted, not_mounted, cannot_tell, get_kernel_console,
  check_mounted,
}

-- The paths: MB_PATH_CONFIG, MB_PATH_IMAGES, MB_CONF, MB_CONF_NEW, MB_CONF_OLD
abbrev pub path_config : Bytes
path_config = codes "monoboot"

abbrev pub path_images : Bytes
path_images = codes "/images"

abbrev pub conf_path : Bytes
conf_path = path_config ++ codes "/mb.conf"

abbrev pub conf_new_path : Bytes
conf_new_path = path_config ++ codes "/mb.conf.new"

abbrev pub conf_old_path : Bytes
conf_old_path = path_config ++ codes "/mb.conf.old"

-- The loop of `check_image_tag`: how many titles are a prefix of the tag?
unfoldable pub count_tag : List ImageSection → Bytes → ℕ
count_tag [] tag = 0
count_tag (i ∷ rest) tag =
    let m = count_tag rest tag in if strncmp_eq i.title tag (length i.title) then m + 1 else m

unfoldable pub check_image_tag : {Cfg : Type 0} → Confuse Cfg → Cfg → Bytes → Bool
unfolding count_tag
check_image_tag c cfg tag = not (count_tag (c.images cfg) tag == 0)

-- The text that `cmd_write` writes: a comment with the time, and `config`, which is "".
abbrev pub saved_text : Bytes → Bytes
saved_text timestr = codes "# config saved by monoboot at " ++ (timestr ++ codes "\n\n")

-- A rename that fails is only reported.
unfoldable pub try_rename : Os → Bytes → Bytes → Trace → Trace
try_rename os from to t = if os.rename_ok t from to then renamed from to ∷ t else t

-- `cmd_write` returns 0, here true, or -1. The configuration is an argument that it does not read.
unfoldable pub cmd_write : {Cfg : Type 0} → Os → Cfg → Trace → Bool × Trace
unfolding try_rename
cmd_write os cfg t =
    if os.fopen_write_ok t conf_new_path
    then (let t₁ = wrote conf_new_path (saved_text (os.time_text t)) ∷ t in
        let t₂ = try_rename os conf_path conf_old_path t₁ in
        let t₃ = try_rename os conf_new_path conf_path t₂ in (true, t₃))
    else (false, t)

-- `save_config` of monoboot.c
unfoldable pub save_config : {Cfg : Type 0} → Os → Cfg → Trace → Trace
unfolding cmd_write
save_config os cfg t = (cmd_write os cfg t).1

-- The tag to boot, before `tryonce` is looked at; none is the error `no such tag`.
unfoldable pub asked_tag : {Cfg : Type 0} → Confuse Cfg → Cfg → Option Bytes → Option Bytes
asked_tag c cfg none = some (c.getstr cfg default)
asked_tag c cfg (some tag) = if check_image_tag c cfg tag then some tag else none

unfoldable pub boot_tag : {Cfg : Type 0} → Confuse Cfg → Cfg → Option Bytes → Option Bytes
boot_tag c cfg arg = elim (asked_tag c cfg arg) [
  | none ↦ none
  | some tag ↦
      some (if has_prefix (codes "yes") (c.getstr cfg tryonce) then c.getstr cfg bootonce else tag)
]

-- The loop that fills `image_file`: the last section whose title is a prefix of the tag.
unfoldable pub image_file : List ImageSection → Bytes → Bytes → Bytes
image_file [] tag file = file
image_file (i ∷ rest) tag file =
    image_file rest tag (if strncmp_eq i.title tag (length i.title) then i.filename else file)

-- How `cmd_boot` ends: it returns -1, or the program is replaced and does not return, or a loop has
-- run past the end of a text.
pub data BootEnd : Type 0 where
  failed : BootEnd
  gone : BootEnd
  undefined : BootEnd

pub record BootResult (Cfg : Type 0) : Type 0 where
  pub end : BootEnd
  pub cfg : Cfg
  pub trace : Trace

abbrev pub image_path : {Cfg : Type 0} → Confuse Cfg → Os → Cfg → Bytes → Bytes
image_path c os cfg tag =
    path_images ++ (codes "/" ++ image_file (c.images cfg) tag os.uninitialised)

abbrev pub config_path : Bytes → Bytes
config_path tag = path_config ++ (codes "/tag/" ++ tag)

-- /proc is mounted if it is not; a mount that fails is only reported.
unfoldable pub mount_proc : Os → Trace → Trace
unfolding check_mounted do_exec
mount_proc os t = elim (check_mounted os (codes "/proc") t) [
  | mounted ↦ t
  | _ ↦
      (do_exec os mount_binary
        (codes "mount" ∷ codes "-t" ∷ codes "proc" ∷ codes "proc" ∷ codes "/proc" ∷ []) t).1
]

abbrev pub kexec_cmdline : Bytes → Bytes → Bytes
kexec_cmdline console path =
    codes "--command-line=" ++ (console ++ (codes " ide=nodma CONFIG=" ++ path))

abbrev pub load_args : Bytes → Bytes → Bytes → List Bytes
load_args console path image = codes "kexec" ∷ kexec_cmdline console path ∷ codes "-l" ∷ image ∷ []

-- From `kexec -l` on: the new kernel is loaded, and then started by replacing this program.
unfoldable pub load_and_start :
    {Cfg : Type 0} → Os → Cfg → (console path image : Bytes) → Trace → BootResult Cfg
load_and_start os cfg console path image t =
    let (r, t') = do_exec os kexec_binary (load_args console path image) t in
    let start = codes "kexec" ∷ codes "-e" ∷ [] in
    if r == 0
    then (if os.exec_ok t' kexec_binary start
        then record { end = gone; cfg = cfg; trace = replaced kexec_binary start ∷ t' }
        else record { end = failed; cfg = cfg; trace = t' })
    else record { end = failed; cfg = cfg; trace = t' }

-- A NULL console is printed as `(null)`.
unfoldable pub boot_console :
    {Cfg : Type 0} → Os → Cfg → Console → (path image : Bytes) → Trace → BootResult Cfg
boot_console os cfg null path image t = load_and_start os cfg (codes "(null)") path image t
boot_console os cfg (found console) path image t = load_and_start os cfg console path image t
boot_console os cfg runs_off path image t = record { end = undefined; cfg = cfg; trace = t }

-- From the save on, with the tag and the configuration in which it is noted.
unfoldable pub boot_image : {Cfg : Type 0} → Confuse Cfg → Os → Cfg → Bytes → Trace → BootResult Cfg
boot_image c os cfg tag t =
    let t₁ = save_config os cfg t in
    let image = image_path c os cfg tag in
    let path = config_path tag in
    let t₂ = mount_proc os t₁ in
    let console = get_kernel_console os t₂ in
    if not (os.stat_ok t₁ image)
    then record { end = failed; cfg = cfg; trace = t₁ }
    else if not (os.stat_ok t₁ path)
    then record { end = failed; cfg = cfg; trace = t₁ }
    else boot_console os cfg console path image t₂

-- The tag is noted as the last one tried, and nothing as the last one booted.
unfoldable pub note_try : {Cfg : Type 0} → Confuse Cfg → Cfg → Bytes → Cfg
note_try c cfg tag = c.setstr (c.setstr cfg lasttry tag) lastboot (codes "nil")

unfoldable pub cmd_boot :
    {Cfg : Type 0} → Confuse Cfg → Os → Cfg → Option Bytes → Trace → BootResult Cfg
cmd_boot c os cfg arg t = elim (boot_tag c cfg arg) [
  | none ↦ record { end = failed; cfg = cfg; trace = t }
  | some tag ↦ boot_image c os (note_try c cfg tag) tag t
]
