-- ===== src/Monoinit.antt =====
-- monoboot/monoinit.c, the init program of an image: it notes which image has booted, and copies
-- the configuration of the image to /etc.
pub mod Line
pub mod Noted
use monoimage.Prelude.{
  ℕ, ◌+◌, Bool, true, false, not, Option, none, some, List, [], ◌∷◌, ◌++◌, ltb, ◌==◌, if◌then◌else◌,
  Bytes, codes, length,
}
use monoimage.CStr.{strncmp_eq}
use monoimage.Cmdline.{CmdlineVar, null, value, past_end, get_cmdline_var, fgets}
use monoimage.Os.{Os, Trace, mount_called, ran}
use monoimage.Confuse.{Confuse, ImageSection, lastboot}
use monoimage.Monoboot.Exec.{do_exec, mount_binary}
use monoimage.Monoboot.Commands.{save_config}
use monoimage.Monoboot.Main.{Parsed, file_error, parse_error, parsed}

-- MB_PATH_MAX, the size of the three arrays, and MB_CMDLINE_MAX
abbrev pub path_max : ℕ
path_max = 200

abbrev pub cmdline_max : ℕ
cmdline_max = 255

abbrev pub cmdline_path : Bytes
cmdline_path = codes "/proc/cmdline"

-- How `parse_cmdline` ends: 0 with the three texts, MB_CMDLINE_NOPROC, MB_CMDLINE_PARSE, or an array
-- that was overrun.
pub data Names : Type 0 where
  names : (image cdev cpath : Bytes) → Names
  no_proc : Names
  no_parse : Names
  overrun : Names

unfoldable pub take_cdev : (image cpath : Bytes) → CmdlineVar → Names
take_cdev image cpath null = no_parse
take_cdev image cpath (value v) =
    let cdev = codes "/dev/" ++ v in
    if not (ltb (length cdev) path_max)
    then overrun
    else if length image == 0
    then no_parse
    else names image cdev cpath
take_cdev image cpath past_end = overrun

unfoldable pub take_config : (image : Bytes) → (config cdev : CmdlineVar) → Names
unfolding take_cdev
take_config image null cdev = no_parse
take_config image (value v) cdev =
    if ltb (length v) path_max then take_cdev image v cdev else overrun
take_config image past_end cdev = overrun

unfoldable pub take_image : (image config cdev : CmdlineVar) → Names
unfolding take_config
take_image null config cdev = no_parse
take_image (value v) config cdev =
    if ltb (length v) path_max then take_config v config cdev else overrun
take_image past_end config cdev = overrun

unfoldable pub parse_line : Bytes → Names
unfolding take_image
parse_line line =
    take_image (get_cmdline_var line (codes "IMAGE")) (get_cmdline_var line (codes "CONFIG"))
      (get_cmdline_var line (codes "CDEV"))

unfoldable pub parse_cmdline : Os → Trace → Names
unfolding parse_line fgets
parse_cmdline os t = elim (os.read_file t cmdline_path) [
  | none ↦ no_proc
  | some [] ↦ no_proc
  | some (b ∷ text) ↦ parse_line (fgets cmdline_max (b ∷ text))
]

-- The title of the first section whose file name begins with the image.
unfoldable pub booted_tag : List ImageSection → Bytes → Option Bytes
booted_tag [] image = none
booted_tag (i ∷ rest) image =
    let later = booted_tag rest image in
    if strncmp_eq i.filename image (length image) then some i.title else later

unfoldable pub note_boot : {Cfg : Type 0} → Confuse Cfg → Cfg → Bytes → Cfg
unfolding booted_tag
note_boot c cfg image = elim (booted_tag (c.images cfg) image) [
  | none ↦ cfg
  | some tag ↦ c.setstr cfg lastboot tag
]

abbrev pub rsync_cmd : Bytes → Bytes
rsync_cmd cpath = codes "/usr/bin/rsync -rt " ++ (cpath ++ codes "/etc/ /etc/")

-- system(cmd): the shell runs the command, and its status is not looked at.
abbrev pub system : Bytes → Trace → Trace
system cmd t = ran (codes "/bin/sh") (codes "sh" ∷ codes "-c" ∷ cmd ∷ []) ∷ t

-- How `main` ends: exit, with the configuration where one was loaded, or an overrun array.
pub data InitEnd (Cfg : Type 0) : Type 0 where
  refused : ℕ → InitEnd Cfg
  done : Cfg → InitEnd Cfg
  undefined : InitEnd Cfg

-- From the loaded configuration on: the boot is noted and saved, a tmpfs is mounted on /etc, and the
-- configuration is copied there. A mount that fails is only reported.
unfoldable pub finish :
    {Cfg : Type 0} → Confuse Cfg → Os → (image cpath : Bytes) → Cfg → Trace → InitEnd Cfg × Trace
unfolding note_boot
finish c os image cpath cfg t =
    let cfg' = note_boot c cfg image in
    let t₁ = save_config os cfg' t in
    let args = codes "mount" ∷ codes "-t" ∷ codes "tmpfs" ∷ codes "tmpfs" ∷ codes "/etc" ∷ [] in
    let t₂ = (do_exec os mount_binary args t₁).1 in
    if not (ltb (length (rsync_cmd cpath)) cmdline_max)
    then (undefined, t₂)
    else (done cfg', system (rsync_cmd cpath) t₂)

-- A mount of /config that fails is only reported; `parse` is cfg_parse of /config/mb.conf.
unfoldable pub main :
    {Cfg : Type 0} → Confuse Cfg → Os → (Trace → Parsed Cfg) → Trace → InitEnd Cfg × Trace
unfolding parse_cmdline finish
main c os parse t = elim (parse_cmdline os t) [
  | no_proc ↦ (refused 1, t)
  | no_parse ↦ (refused 1, t)
  | overrun ↦ (undefined, t)
  | names image cdev cpath ↦
      let t' = mount_called cdev (codes "/config") ∷ t in
      elim (parse t') [
        | file_error ↦ (refused 1, t')
        | parse_error ↦ (refused 2, t')
        | parsed cfg ↦ finish c os image cpath cfg t'
      ]
]
