-- ===== src/Kexec/Elf/X86/Shadowed.antt =====
-- What becomes of the ramdisk and of --args-none.
use monoimage.Prelude.{
  ℕ, ◌+◌, ◌<◌, ◌≡◌, ◌≢◌, refl, sym, ap, ◌∙◌, true, Option, none, some, List, [], ◌∷◌, ◌++◌, Bytes,
  length, inl, inr, All,
}
use monoimage.Kexec.{MemoryRange, KexecInfo, Machine, args_none_on_other, Outcome-cases}
use monoimage.Kexec.Slurp.{Reader, slurp_file}
use monoimage.Kexec.Slurp.Whole.{Serves, slurp_file-whole}
use monoimage.Kexec.BzImage.{Purgatory, BuildLoad}
use monoimage.Kexec.BzImage.Command.{Files}
use monoimage.Kexec.Elf.{ElfFile, Parsed, parsed, rejected, faults, exits, endless, ◌>>=◌, MemEhdr}
use monoimage.Kexec.Elf.Exec.{elf_exec_build_load}
use monoimage.Kexec.Elf.X86.{
  ElfOpt, append, ramdisk, args_elf, args_linux, args_none, core, unknown, ElfOptions, no_options,
  set_option, parse_options, read, read_hidden, start_linux, start_with, Around, Start,
  elf_x86_load,
}

bind-same {ℓ κ} :
    {A : Type ℓ} {B : Type κ} (m : Parsed A) (f g : A → Parsed B)
    → ((a : A) → f a ≡ g a)
    → (m >>= f) ≡ (m >>= g)
bind-same (parsed a) f g h = h a
bind-same rejected f g h = refl
bind-same faults f g h = refl
bind-same (exits d) f g h = refl
bind-same endless f g h = refl

read_hidden-whole :
    (fuel : ℕ) (fs : Files) (name text : Bytes) (reader : Reader) (calm : ℕ)
    → fs.open_file name ≡ some (record { size = length text; reader = reader; close_ok = true })
    → Serves reader text calm
    → calm + length text < fuel
    → read_hidden fuel fs (some name) ≡ read_hidden fuel fs none
unfolding read_hidden
read_hidden-whole fuel fs name text reader calm opened serves enough =
    ap (λ o. read (slurp_file fuel o) >>= λ bytes. parsed none) opened
    ∙ ap (λ o. read o >>= λ bytes. parsed none)
        (slurp_file-whole reader text calm fuel serves enough)

-- The options of a command line with a ramdisk, and of the same one without it.
abbrev pub asked : Option Bytes → Option Bytes → ElfOptions
asked line file = record { command_line = line; ramdisk_file = file; linux_style = true }

start_linux-hidden :
    (fuel : ℕ) (m : Machine) (info : KexecInfo) (p : Purgatory) (fs : Files) (hdr_at : ℕ)
    (h : MemEhdr) (line : Option Bytes) (file : Option Bytes) (ranges : Option (List MemoryRange))
    → read_hidden fuel fs file ≡ read_hidden fuel fs none
    → start_linux fuel m info p fs hdr_at h (asked line file) ranges
      ≡ start_linux fuel m info p fs hdr_at h (asked line none) ranges
unfolding start_linux
start_linux-hidden fuel m info p fs hdr_at h line file ranges same = rw same refl

start_with-hidden :
    (fuel : ℕ) (m : Machine) (build : BuildLoad) (a : Around) (h : MemEhdr) (info : KexecInfo)
    (line file : Option Bytes)
    → read_hidden fuel a.files file ≡ read_hidden fuel a.files none
    → start_with fuel m build a h info (asked line file)
      ≡ start_with fuel m build a h info (asked line none)
unfolding start_with
start_with-hidden fuel m build a h info line file same = elim (Outcome-cases (build info)) [
  | inl ((info', p), built) ↦
      rw built (start_linux-hidden fuel m info' p a.files a.hdr_at h line file a.ranges same)
  | inr (d, built) ↦ rw built refl
]

-- With --args-linux a ramdisk that can be read whole makes no difference: what `elf_x86_load` loads and
-- starts is what it loads and starts without --ramdisk.
pub elf_x86_load-hidden :
    (fuel : ℕ) (m : Machine) (build : BuildLoad) (a : Around) (with without : List ElfOpt)
    (f : ElfFile) (info : KexecInfo) (line : Option Bytes) (name text : Bytes) (reader : Reader)
    (calm : ℕ)
    → parse_options with no_options ≡ parsed (asked line (some name))
    → parse_options without no_options ≡ parsed (asked line none)
    → a.files.open_file name
      ≡ some (record { size = length text; reader = reader; close_ok = true })
    → Serves reader text calm
    → calm + length text < fuel
    → elf_x86_load fuel m build a with f info ≡ elf_x86_load fuel m build a without f info
unfolding elf_x86_load
elf_x86_load-hidden fuel m build a with without f info line name text reader calm p q opened serves
      enough =
    let same = read_hidden-whole fuel a.files name text reader calm opened serves enough in
    let go : ElfOptions → Parsed Start =
      λ o. elf_exec_build_load fuel m info f >>= λ x. start_with fuel m build a x.0 x.1 o in
    ap (λ o. o >>= go) p
    ∙ bind-same (elf_exec_build_load fuel m info f) _ _
        (λ x. start_with-hidden fuel m build a x.0 x.1 line (some name) same)
    ∙ ap (λ o. o >>= go) (sym q)

parse_options-args_none :
    (front back : List ElfOpt) (o : ElfOptions)
    → All (λ x. x ≢ unknown) front
    → parse_options (front ++ args_none ∷ back) o ≡ exits args_none_on_other
unfolding parse_options set_option
parse_options-args_none [] back o known = refl
parse_options-args_none (append text ∷ front) back o known =
    parse_options-args_none front back _ known.1
parse_options-args_none (ramdisk name ∷ front) back o known =
    parse_options-args_none front back _ known.1
parse_options-args_none (args_elf ∷ front) back o known =
    parse_options-args_none front back _ known.1
parse_options-args_none (args_linux ∷ front) back o known =
    parse_options-args_none front back _ known.1
parse_options-args_none (args_none ∷ front) back o known = refl
parse_options-args_none (core ∷ front) back o known = parse_options-args_none front back _ known.1
parse_options-args_none (unknown ∷ front) back o known = absurd (known.0 refl)

-- With --args-none, and no unknown option in front of it, the program exits, whatever the file and the
-- machine.
elf_x86_load-args_none :
    (fuel : ℕ) (m : Machine) (build : BuildLoad) (a : Around) (front back : List ElfOpt)
    (f : ElfFile) (info : KexecInfo)
    → All (λ x. x ≢ unknown) front
    → elf_x86_load fuel m build a (front ++ args_none ∷ back) f info ≡ exits args_none_on_other
unfolding elf_x86_load
elf_x86_load-args_none fuel m build a front back f info known =
    rw (parse_options-args_none front back no_options known) refl
