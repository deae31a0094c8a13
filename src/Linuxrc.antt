-- ===== src/Linuxrc.antt =====
-- linuxrc/linuxrc.c, the program of the initial ramdisk: it finds the device that holds the image
-- by its identifier, mounts it, and attaches the root filesystem of the image to a loop device.
pub mod Line
pub mod Walk
pub mod Attach
pub mod Boots
use monoimage.Prelude.{
  ℕ, zero, suc, ◌+◌, ◌-◌, ◌^◌, Bool, true, false, not, Option, none, some, List, [], ◌∷◌, ◌++◌, ltb,
  ◌==◌, if◌then◌else◌, Bytes, codes, length, take,
}
use monoimage.CStr.{strcmp_eq}
use monoimage.Cmdline.{CmdlineVar, null, value, past_end, get_cmdline_var, fgets}
use monoimage.Uuid.{uuid2str}
use monoimage.Image.{old_header_size, decode_linuxrc}

-- What the program did: the newest event stands first.
pub data Event : Type 0 where
  -- mount(device, place)
  mounted : Bytes → Bytes → Event
  unmounted : Bytes → Event
  -- LOOP_SET_FD of a loop device to a file, LOOP_SET_STATUS64 with an offset, and LOOP_CLR_FD
  attached : Bytes → Bytes → Event
  offset_set : Bytes → ℕ → Event
  cleared : Bytes → Event

abbrev pub Trace : Type 0
Trace = List Event

-- The kernel and libext2fs; an answer may depend on what was done before.
pub record Kernel : Type 0 where
  pub mount_ok : Trace → Bytes → Bytes → Bool
  pub umount_ok : Trace → Bytes → Bool
  pub stat_ok : Trace → Bytes → Bool
  -- the text of a file that fopen opens
  pub file : Trace → Bytes → Option Bytes
  -- the names in /dev, in the order of readdir
  pub dev_names : Option (List Bytes)
  -- stat succeeds and says that it is a block device
  pub is_block : Bytes → Bool
  -- the identifier in the superblock, where ext2fs_open succeeds
  pub superblock_uuid : Bytes → Option Bytes
  pub open_rw_ok : Trace → Bytes → Bool
  pub set_fd_ok : Trace → Bytes → Bytes → Bool
  pub set_status_ok : Trace → Bytes → ℕ → Bool

-- How the program ends: DIE reboots, and does not return; exit(0); or a buffer or a line was
-- overrun, which is undefined.
pub data End : Type 0 where
  rebooted : End
  success : End
  undefined : End

abbrev pub buf_max : ℕ
buf_max = 256

abbrev pub images_dir : Bytes
images_dir = codes "/images"

abbrev pub in_images : Bytes → Bytes
in_images name = codes "/images/" ++ name

abbrev pub dev_path : Bytes → Bytes
dev_path name = codes "/dev/" ++ name

abbrev pub fs_dev : Bytes
fs_dev = codes "/dev/hda1"

abbrev pub fs_img : Bytes
fs_img = codes "failsafe.img"

abbrev pub loop_dev : Bytes
loop_dev = codes "/dev/loop0"

abbrev pub cmdline_path : Bytes
cmdline_path = codes "/proc/cmdline"

unfoldable pub ext2_uuid : Kernel → Bytes → Bytes
ext2_uuid k device = elim (k.superblock_uuid device) [
  | none ↦ codes "<none>"
  | some uuid ↦ uuid2str uuid
]

-- What the command line asks for: the path of the image and the identifier of its device.
pub data Asked : Type 0 where
  asked : (imagefile imageuuid : Bytes) → Asked
  missing : Asked
  overrun : Asked

-- The identifier of the configuration's device is only printed.
unfoldable pub asked_config : (imagefile imageuuid : Bytes) → CmdlineVar → Asked
asked_config imagefile imageuuid null = missing
asked_config imagefile imageuuid (value v) = asked imagefile imageuuid
asked_config imagefile imageuuid past_end = overrun

unfoldable pub asked_uuid : (imagefile : Bytes) → CmdlineVar → CmdlineVar → Asked
unfolding asked_config
asked_uuid imagefile null c = missing
asked_uuid imagefile (value v) c = asked_config imagefile v c
asked_uuid imagefile past_end c = overrun

-- `/images/` and the value are written to an array of BUF_MAX bytes.
unfoldable pub asked_file : CmdlineVar → CmdlineVar → CmdlineVar → Asked
unfolding asked_uuid
asked_file null i c = missing
asked_file (value v) i c =
    let path = in_images v in if ltb (length path) buf_max then asked_uuid path i c else overrun
asked_file past_end i c = overrun

unfoldable pub parse_line : Bytes → Asked
unfolding asked_file
parse_line line =
    asked_file (get_cmdline_var line (codes "F")) (get_cmdline_var line (codes "I"))
      (get_cmdline_var line (codes "C"))

-- How the walk over /dev ends: at the first block device with the identifier, which is mounted or
-- cannot be; with none; or by a name that overruns its array.
pub data WalkEnd : Type 0 where
  found : Bytes → WalkEnd
  no_device : WalkEnd
  too_long : WalkEnd

unfoldable pub walk : Kernel → Bytes → List Bytes → WalkEnd
unfolding ext2_uuid
walk k imageuuid [] = no_device
walk k imageuuid (name ∷ names) =
    let rest = walk k imageuuid names in
    let dev = dev_path name in
    if not (ltb (length dev) buf_max)
    then too_long
    else if not (k.is_block dev)
    then rest
    else if strcmp_eq imageuuid (ext2_uuid k dev)
    then found dev
    else rest

-- `loopinfo64.lo_offset = offset;`: the offset is an int, whose sign is extended to 64 bits.
unfoldable pub lo_offset : (offset : ℕ) → ℕ
lo_offset offset = if ltb offset (2 ^ 31) then offset else offset + (2 ^ 64 - 2 ^ 32)

-- `set_loop` returns 0, here true, or 1.
unfoldable pub set_loop : Kernel → (device path : Bytes) → ℕ → Trace → Bool × Trace
unfolding lo_offset
set_loop k device path offset t =
    let t₁ = attached device path ∷ t in
    if not (k.open_rw_ok t path)
    then (false, t)
    else if not (k.open_rw_ok t device)
    then (false, t)
    else if not (k.set_fd_ok t device path)
    then (false, t)
    else if not (k.set_status_ok t₁ device (lo_offset offset))
    then (false, cleared device ∷ t₁)
    else (true, offset_set device (lo_offset offset) ∷ t₁)

-- From the header on. `main` compares the result of `set_loop` with `< 0`, which it never is.
unfoldable pub attach : Kernel → (imagefile : Bytes) → Trace → End × Trace
unfolding set_loop decode_linuxrc
attach k imagefile t = elim (k.file t imagefile) [
  | none ↦ (rebooted, t)
  | some text ↦
      let offset = (decode_linuxrc text).rootfs_offset in
      if ltb (length text) old_header_size
      then (rebooted, t)
      else (success, (set_loop k loop_dev imagefile offset t).1)
]

unfoldable pub umount_images : Kernel → Trace → Trace
umount_images k t = if k.umount_ok t images_dir then unmounted images_dir ∷ t else t

-- The image that was asked for if it is there, else the failsafe image on FS_DEV.
unfoldable pub check_image : Kernel → (imagefile : Bytes) → Trace → End × Trace
unfolding attach umount_images
check_image k imagefile t =
    let t₁ = umount_images k t in
    let t₂ = mounted fs_dev images_dir ∷ t₁ in
    if k.stat_ok t imagefile
    then attach k imagefile t
    else if not (k.mount_ok t₁ fs_dev images_dir)
    then (rebooted, t₁)
    else if not (k.stat_ok t₂ (in_images fs_img))
    then (rebooted, t₂)
    else attach k (in_images fs_img) t₂

-- From the end of the walk on: the device is mounted, if there is one.
unfoldable pub after_walk : Kernel → (imagefile : Bytes) → WalkEnd → Trace → End × Trace
unfolding check_image
after_walk k imagefile (found dev) t =
    if k.mount_ok t dev images_dir
    then check_image k imagefile (mounted dev images_dir ∷ t)
    else (rebooted, t)
after_walk k imagefile no_device t = check_image k imagefile t
after_walk k imagefile too_long t = (undefined, t)

unfoldable pub find_device : Kernel → Asked → Trace → End × Trace
unfolding walk after_walk
find_device k (asked imagefile imageuuid) t = elim k.dev_names [
  | none ↦ (rebooted, t)
  | some names ↦ after_walk k imagefile (walk k imageuuid names) t
]
find_device k missing t = (rebooted, t)
find_device k overrun t = (undefined, t)

-- fopen and fgets of /proc/cmdline
unfoldable pub read_line_of : Kernel → Trace → Option Bytes
unfolding fgets
read_line_of k t = elim (k.file t cmdline_path) [
  | none ↦ none
  | some [] ↦ none
  | some (b ∷ text) ↦ some (fgets buf_max (b ∷ text))
]

unfoldable pub read_cmdline : Kernel → Trace → End × Trace
unfolding find_device parse_line read_line_of
read_cmdline k t = elim (read_line_of k t) [
  | none ↦ (rebooted, t)
  | some line ↦ find_device k (parse_line line) t
]

unfoldable pub main : Kernel → Trace → End × Trace
unfolding read_cmdline
main k t =
    if k.mount_ok t (codes "proc") (codes "/proc")
    then read_cmdline k (mounted (codes "proc") (codes "/proc") ∷ t)
    else (rebooted, t)
