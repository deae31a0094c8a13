-- ===== src/Monoboot/Commands/Saved.antt =====
-- What `cmd_write` leaves on the disk.
use monoimage.Prelude.{
  ◌≡◌, ◌≢◌, refl, true, false, Option, none, some, [], ◌∷◌, Bytes, if◌then◌else◌,
}
use monoimage.CStr.{strcmp_eq}
use monoimage.CStr.Laws.{strcmp_eq_ne}
use monoimage.Os.{Os, Trace, Event, ran, wrote, renamed, mount_called, replaced}
use monoimage.Monoboot.Commands.{
  conf_path, conf_new_path, conf_old_path, saved_text, try_rename, cmd_write,
}

-- The files of a disk, by their paths.
abbrev pub Files : Type 0
Files = Bytes → Option Bytes

-- What one event does to the files.
abbrev pub after_event : Event → Files → Files
after_event (wrote q text) files p = if strcmp_eq p q then some text else files p
after_event (renamed from to) files p =
    if strcmp_eq p to then files from else if strcmp_eq p from then none else files p
after_event (ran binary args) files p = files p
after_event (mount_called device directory) files p = files p
after_event (replaced binary args) files p = files p

-- The files after a trace, from those at its start.
abbrev pub files_after : Files → Trace → Files
files_after start [] = start
files_after start (e ∷ t) = after_event e (files_after start t)

-- Nothing fails.
pub record Works (os : Os) : Type 0 where
  pub opens : (t : Trace) → os.fopen_write_ok t conf_new_path ≡ true
  pub renames : (t : Trace) (from to : Bytes) → os.rename_ok t from to ≡ true

-- What a complete write leaves: the new text in place, the text that was in place as the old one, and
-- no other file changed.
pub record IsSaved (before after : Files) (text : Bytes) : Type 0 where
  pub current : after conf_path ≡ some text
  pub old : after conf_old_path ≡ before conf_path
  pub no_new : after conf_new_path ≡ none
  pub others :
      (p : Bytes) → p ≢ conf_path → p ≢ conf_old_path → p ≢ conf_new_path → after p ≡ before p

module _ {Cfg : Type 0} (os : Os) (cfg : Cfg) (start : Files) (t : Trace) where
  -- Where nothing fails, `cmd_write` returns 0 and puts in place a file that holds a comment and
  -- nothing of the configuration, whatever that is; the file that was in place is kept as the old one.
  pub cmd_write-IsSaved :
      Works os
      → ((cmd_write os cfg t).0 ≡ true)
        × IsSaved
            (files_after start t)
            (files_after start (cmd_write os cfg t).1)
            (saved_text (os.time_text t))
  unfolding cmd_write try_rename strcmp_eq
  cmd_write-IsSaved w =
      rw (w.opens t, w.renames _ conf_path conf_old_path, w.renames _ conf_new_path conf_path)
        (
          refl,
          record {
            current = refl;
            old = refl;
            no_new = refl;
            others = λ p n m k. rw (
              strcmp_eq_ne p conf_path n,
              strcmp_eq_ne p conf_new_path k,
              strcmp_eq_ne p conf_old_path m,
            );
          },
        )

  -- Where the new file cannot be opened, `cmd_write` returns -1 and changes nothing.
  pub cmd_write-fails : os.fopen_write_ok t conf_new_path ≡ false → cmd_write os cfg t ≡ (false, t)
  unfolding cmd_write
  cmd_write-fails h = rw h

  -- Where only the second rename fails, `cmd_write` returns 0 all the same, and no configuration is
  -- in place.
  cmd_write-loses :
      os.fopen_write_ok t conf_new_path ≡ true
      → ((u : Trace) → os.rename_ok u conf_path conf_old_path ≡ true)
      → ((u : Trace) → os.rename_ok u conf_new_path conf_path ≡ false)
      → ((cmd_write os cfg t).0 ≡ true)
        × (files_after start (cmd_write os cfg t).1 conf_path ≡ none)
  unfolding cmd_write try_rename strcmp_eq
  cmd_write-loses o first second = rw (o, first _, second _) (refl, refl)
