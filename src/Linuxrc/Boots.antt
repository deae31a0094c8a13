-- ===== src/Linuxrc/Boots.antt =====
-- A system in which linuxrc finds the image that its command line names.
use monoimage.Prelude.{◌<◌, ◌≤◌, ◌≡◌, true, some, List, ◌∷◌, ◌++◌, Bytes, codes, length, All}
use monoimage.Cmdline.Handover.{proc_cmdline}
use monoimage.Image.{old_header_size, decode_linuxrc}
use monoimage.Linuxrc.{
  Kernel, Trace, mounted, attached, images_dir, in_images, dev_path, buf_max, loop_dev,
  cmdline_path, ext2_uuid, lo_offset,
}
use monoimage.Linuxrc.Walk.{Passed}

abbrev pub IsShort : Bytes → Type 0
IsShort name = length (dev_path name) < buf_max

-- The device is mounted, after /proc.
abbrev pub at_device : Bytes → Trace → Trace
at_device name t = mounted (dev_path name) images_dir ∷ mounted (codes "proc") (codes "/proc") ∷ t

-- The system answers as linuxrc wants: /proc is there and shows the line that the loader wrote, /dev
-- lists the device with the identifier behind others that do not have it, the image lies on this
-- device, and a loop device can be set up.
pub record IsReady (k : Kernel) (t : Trace) (append image uuid config name text : Bytes)
    : Type 0 where
  pub proc : k.mount_ok t (codes "proc") (codes "/proc") ≡ true
  pub line :
      k.file (mounted (codes "proc") (codes "/proc") ∷ t) cmdline_path
      ≡ some (proc_cmdline append image uuid config)
  pub before : List Bytes
  pub after : List Bytes
  pub listed : k.dev_names ≡ some (before ++ name ∷ after)
  pub short : All IsShort before
  pub passed : All (Passed k uuid) before
  pub name_short : IsShort name
  pub block : k.is_block (dev_path name) ≡ true
  pub same_uuid : ext2_uuid k (dev_path name) ≡ uuid
  pub mounts :
      k.mount_ok (mounted (codes "proc") (codes "/proc") ∷ t) (dev_path name) images_dir ≡ true
  pub there : k.stat_ok (at_device name t) (in_images image) ≡ true
  pub contents : k.file (at_device name t) (in_images image) ≡ some text
  pub header : old_header_size ≤ length text
  pub image_opens : k.open_rw_ok (at_device name t) (in_images image) ≡ true
  pub loop_opens : k.open_rw_ok (at_device name t) loop_dev ≡ true
  pub takes_image : k.set_fd_ok (at_device name t) loop_dev (in_images image) ≡ true
  pub takes_offset :
      k.set_status_ok
        (attached loop_dev (in_images image) ∷ at_device name t)
        loop_dev
        (lo_offset (decode_linuxrc text).rootfs_offset)
      ≡ true
