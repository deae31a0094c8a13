-- ===== src/Monoinit/Line.antt =====
-- What monoinit makes of the kernel command line that `monoimage_load` writes.
use monoimage.Prelude.{ℕ, ◌≡◌, refl, some, [], ◌∷◌, ◌==◌, Bytes, codes, All-append, false}
use monoimage.Cmdline.{null, get_cmdline_var, fgets, load_line}
use monoimage.Cmdline.Laws.{Lacks, newline}
use monoimage.Cmdline.Absent.{strstr-Lacks, read_line-Lacks, load_line-Lacks}
use monoimage.Cmdline.Handover.{proc_cmdline}
use monoimage.Os.{Os, Trace}
use monoimage.Confuse.{Confuse}
use monoimage.Monoboot.Main.{Parsed}
use monoimage.Monoinit.{
  cmdline_path, cmdline_max, parse_line, take_image, no_parse, parse_cmdline, refused, main,
}

image-Lacks : (line : Bytes) → Lacks b'M' line → get_cmdline_var line (codes "IMAGE") ≡ null
unfolding get_cmdline_var
image-Lacks line h = rw (strstr-Lacks line (codes "AGE") b'I' b'M' h, get_cmdline_var)

parse_line-Lacks : (line : Bytes) → Lacks b'M' line → parse_line line ≡ no_parse
unfolding parse_line take_image
parse_line-Lacks line h = rw (image-Lacks line h, parse_line)

parse_cmdline-Lacks :
    (os : Os) (t : Trace) (b : ℕ) (text : Bytes)
    → os.read_file t cmdline_path ≡ some (b ∷ text)
    → Lacks b'M' (b ∷ text)
    → parse_cmdline os t ≡ no_parse
unfolding parse_cmdline fgets
parse_cmdline-Lacks os t b text e h =
    rw (e, parse_cmdline)
      (parse_line-Lacks (fgets cmdline_max (b ∷ text)) (read_line-Lacks b'M' 254 (b ∷ text) h))

-- monoinit finds no image in a line that `monoimage_load` wrote: whatever the texts are, if none of
-- them holds an M, it exits with 1 and does nothing.
pub main-load_line :
    {Cfg : Type 0} (c : Confuse Cfg) (os : Os) (parse : Trace → Parsed Cfg) (t : Trace)
    (append image images_uuid config_uuid : Bytes)
    → os.read_file t cmdline_path ≡ some (proc_cmdline append image images_uuid config_uuid)
    → Lacks b'M' append
    → Lacks b'M' image
    → Lacks b'M' images_uuid
    → Lacks b'M' config_uuid
    → main c os parse t ≡ (refused 1, t)
unfolding main load_line
main-load_line c os parse t append image images_uuid config_uuid e a i u g =
    let line =
      load_line-Lacks append image images_uuid config_uuid b'M' refl refl refl refl a i u g in
    let h =
      All-append (λ x. (b'M' == x) ≡ false) (load_line (some append) image images_uuid config_uuid)
        (newline ∷ []) line (refl, tt) in
    let none_such = parse_cmdline-Lacks os t _ _ e h in rw (none_such, main)
