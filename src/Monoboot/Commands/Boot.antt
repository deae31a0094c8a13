-- ===== src/Monoboot/Commands/Boot.antt =====
-- What `cmd_boot` does on its way to the new kernel.
use monoimage.Prelude.{
  ◌≡◌, ◌⊎◌, refl, true, false, Option, none, some, List, [], ◌∷◌, Bytes, codes, arith,
}
use monoimage.Os.{Os, Trace, ran, wrote, replaced, exited}
use monoimage.Confuse.{Confuse}
use monoimage.Monoboot.Exec.{kexec_binary}
use monoimage.Monoboot.Util.{Console, null, found, runs_off, get_kernel_console}
use monoimage.Monoboot.Commands.{
  conf_path, conf_new_path, conf_old_path, saved_text, try_rename, failed, asked_tag, boot_tag,
  note_try, save_config, image_path, config_path, mount_proc, load_args, load_and_start,
  boot_console, boot_image, cmd_boot,
}

-- The console text that the command line of the new kernel is given.
abbrev pub console_text : Console → Bytes
console_text null = codes "(null)"
console_text (found console) = console
console_text runs_off = []

-- What must have happened before the program is replaced. In the trace `saved` the new file was
-- written and the renames were tried, unless that file could not be opened and nothing was done.
-- Both files were there in it; the child that loads the kernel from the image exited with 0; it is the
-- last child, and `kexec -e` the last event.
pub record IsStarted {Cfg : Type 0} (c : Confuse Cfg) (os : Os) (cfg : Cfg) (tag : Bytes)
    (t end : Trace) : Type 0 where
  pub saved : Trace
  pub saves :
      ((os.fopen_write_ok t conf_new_path ≡ false) × (saved ≡ t))
      ⊎ ((os.fopen_write_ok t conf_new_path ≡ true)
          × (saved
              ≡ try_rename os conf_new_path conf_path (
                  try_rename os conf_path conf_old_path
                    (wrote conf_new_path (saved_text (os.time_text t)) ∷ t))))
  pub image_there : os.stat_ok saved (image_path c os cfg tag) ≡ true
  pub config_there : os.stat_ok saved (config_path tag) ≡ true
  pub before : Trace
  pub mounted : before ≡ mount_proc os saved
  pub args : List Bytes
  pub loads :
      args
      ≡ load_args
          (console_text (get_kernel_console os before))
          (config_path tag)
          (image_path c os cfg tag)
  pub loaded : os.child before kexec_binary args ≡ exited 0
  pub replaced_last :
      end ≡ replaced kexec_binary (codes "kexec" ∷ codes "-e" ∷ []) ∷ ran kexec_binary args ∷ before

module _ {Cfg : Type 0} (c : Confuse Cfg) (os : Os) where
  load_and_start-cfg :
      (cfg : Cfg) (console path image : Bytes) (t : Trace)
      → (load_and_start os cfg console path image t).cfg ≡ cfg
  unfolding load_and_start
  load_and_start-cfg cfg console path image t = ground arith

  boot_console-cfg :
      (cfg : Cfg) (k : Console) (path image : Bytes) (t : Trace)
      → (boot_console os cfg k path image t).cfg ≡ cfg
  unfolding boot_console
  boot_console-cfg cfg null path image t = load_and_start-cfg cfg (codes "(null)") path image t
  boot_console-cfg cfg (found console) path image t = load_and_start-cfg cfg console path image t
  boot_console-cfg cfg runs_off path image t = refl

  boot_image-cfg : (cfg : Cfg) (tag : Bytes) (t : Trace) → (boot_image c os cfg tag t).cfg ≡ cfg
  unfolding boot_image
  boot_image-cfg cfg tag t = ground (
    arith,
    boot_console-cfg cfg (get_kernel_console os (mount_proc os (save_config os cfg t)))
        (config_path tag) (image_path c os cfg tag) (mount_proc os (save_config os cfg t)),
  )

  -- A tag that no section has is refused, and neither the configuration nor the world is changed.
  pub cmd_boot-no_such_tag :
      (cfg : Cfg) (arg : Option Bytes) (t : Trace)
      → asked_tag c cfg arg ≡ none
      → cmd_boot c os cfg arg t ≡ record { end = failed; cfg = cfg; trace = t }
  unfolding cmd_boot boot_tag
  cmd_boot-no_such_tag cfg arg t h = rw (h, cmd_boot)

  -- However `cmd_boot` ends, once a tag is chosen it is noted as the last one tried.
  cmd_boot-cfg :
      (cfg : Cfg) (arg : Option Bytes) (tag : Bytes) (t : Trace)
      → boot_tag c cfg arg ≡ some tag
      → (cmd_boot c os cfg arg t).cfg ≡ note_try c cfg tag
  unfolding cmd_boot
  cmd_boot-cfg cfg arg tag t e = rw (e, cmd_boot) (boot_image-cfg (note_try c cfg tag) tag t)
