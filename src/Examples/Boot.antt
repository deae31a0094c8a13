-- ===== src/Examples/Boot.antt =====
-- A configuration in memory and a system in which everything works, and what the boot loader does
-- with them.
use monoimage.Prelude.{
  ℕ, ◌≡◌, ◌≢◌, refl, ap, sym, ◌∙◌, inl, inr, true, none, some, List, [], ◌∷◌, ◌==◌, if◌then◌else◌,
  Bytes, codes, arith, Bool-cases,
}
use monoimage.CStr.{strcmp_eq}
use monoimage.Os.{Os, exited}
use monoimage.Confuse.{
  StrOption, bootonce, tryonce, default, fallback, lasttry, lastboot, password, ImageSection,
  Confuse,
}
use monoimage.Monoboot.Commands.{conf_path, saved_text, cmd_write, asked_tag, boot_tag}
use monoimage.Monoboot.Commands.Saved.{Files, files_after, IsSaved, cmd_write-IsSaved}
use monoimage.Monoboot.Main.{check_last, parsed}
use monoimage.Monoboot.Main.Choice.{boot_tag-check_last}
use monoimage.Cmdline.Handover.{proc_cmdline}
use monoimage.Cmdline.Laws.{lacks_of}
use monoimage.Monoinit.{refused, main}
use monoimage.Monoinit.Line.{main-load_line}

record Config : Type 0 where
  option : StrOption → Bytes
  images : List ImageSection

abbrev index : StrOption → ℕ
index bootonce = 0
index tryonce = 1
index default = 2
index fallback = 3
index lasttry = 4
index lastboot = 5
index password = 6

abbrev of_index : ℕ → StrOption
of_index n =
    if n == 0
    then bootonce
    else if n == 1
    then tryonce
    else if n == 2
    then default
    else if n == 3
    then fallback
    else if n == 4
    then lasttry
    else if n == 5
    then lastboot
    else password

of_index-index : (o : StrOption) → of_index (index o) ≡ o
of_index-index bootonce = refl
of_index-index tryonce = refl
of_index-index default = refl
of_index-index fallback = refl
of_index-index lasttry = refl
of_index-index lastboot = refl
of_index-index password = refl

index-eq : (o p : StrOption) → (index o == index p) ≡ true → o ≡ p
index-eq o p e =
    let same : index o ≡ index p = ground arith in
    sym (of_index-index o) ∙ ap of_index same ∙ of_index-index p

abbrev set_option : Config → StrOption → Bytes → Config
set_option g o v = record {
  option = λ p. if index o == index p then v else g.option p;
  images = g.images;
}

set_option-same : (g : Config) (o : StrOption) (v : Bytes) → (set_option g o v).option o ≡ v
set_option-same g o v = ground arith

set_option-other :
    (g : Config) (o p : StrOption) (v : Bytes) → o ≢ p → (set_option g o v).option p ≡ g.option p
set_option-other g o p v ne = elim (Bool-cases (index o == index p)) [
  | inl e ↦ absurd (ne (index-eq o p e))
  | inr e ↦ rw e
]

abbrev confuse : Confuse Config
confuse = record {
  getstr = λ g. g.option;
  setstr = set_option;
  delay = λ g. 0;
  images = λ g. g.images;
  networks = λ g. [];
  getstr-setstr = set_option-same;
  getstr-setstr_ne = set_option-other;
  images-setstr = λ g o v. refl;
}

abbrev options : StrOption → Bytes
options default = codes "stable"
options fallback = codes "rescue"
options tryonce = codes "no"
options o = codes "none"

abbrev cfg : Config
cfg = record {
  option = options;
  images =
      record { title = codes "stable"; filename = codes "stable.img" }
      ∷ record { title = codes "rescue"; filename = codes "rescue.img" }
      ∷ [];
}

abbrev cmdline : Bytes
cmdline = proc_cmdline (codes "console=ttyS0") (codes "stable.img") (codes "11-22") (codes "33-44")

-- Every call succeeds, and every file holds the kernel command line.
abbrev os : Os
os = record {
  child = λ t binary args. exited 0;
  exec_ok = λ t binary args. true;
  stat_ok = λ t path. true;
  fopen_write_ok = λ t path. true;
  rename_ok = λ t from to. true;
  read_file = λ t path. some cmdline;
  time_text = λ t. codes "Thu";
  uninitialised = [];
}

abbrev start : Files
start path = if strcmp_eq path conf_path then some (codes "default = stable") else none

cmd_write-IsSaved_example :
    ((cmd_write os cfg []).0 ≡ true)
    × IsSaved start (files_after start (cmd_write os cfg []).1) (saved_text (os.time_text []))
cmd_write-IsSaved_example =
    cmd_write-IsSaved os cfg start [] (record { opens = λ t. refl; renames = λ t from to. refl })

keeps : strcmp_eq conf_path conf_path ≡ true
unfolding strcmp_eq
keeps = refl

boot_tag-check_last_example :
    boot_tag confuse (check_last confuse cfg).cfg none
    ≡ asked_tag confuse (check_last confuse cfg).cfg none
boot_tag-check_last_example = boot_tag-check_last confuse cfg none

main-load_line_example : main confuse os (λ t. parsed cfg) [] ≡ (refused 1, [])
main-load_line_example =
    main-load_line confuse os (λ t. parsed cfg) [] (codes "console=ttyS0") (codes "stable.img")
      (codes "11-22") (codes "33-44") refl (lacks_of b'M' (codes "console=ttyS0") refl)
      (lacks_of b'M' (codes "stable.img") refl) (lacks_of b'M' (codes "11-22") refl)
      (lacks_of b'M' (codes "33-44") refl)
