-- ===== src/Linuxrc/Line.antt =====
-- What linuxrc takes from the kernel command line that `monoimage_load` writes.
use monoimage.Prelude.{some, ◌<◌, ◌≡◌, refl, [], ◌∷◌, Bytes, length, arith, length-append}
use monoimage.Cmdline.{value, fgets, load_line}
use monoimage.Cmdline.Laws.{Lacks, newline}
use monoimage.Cmdline.Absent.{read_line-all, load_line-Lacks, length-load_line}
use monoimage.Cmdline.Handover.{IsHandover, proc_cmdline, load_line-get_cmdline_var}
use monoimage.Linuxrc.{buf_max, in_images, asked, asked_file, asked_uuid, asked_config, parse_line}

-- The three values, put together.
asked_file_of :
    (image images_uuid config_uuid : Bytes)
    → length image < 248
    → asked_file (value image) (value images_uuid) (value config_uuid)
      ≡ asked (in_images image) images_uuid
unfolding asked_file asked_uuid asked_config
asked_file_of image images_uuid config_uuid l = ground arith

-- linuxrc asks for the image and the device that `monoimage_load` wrote, where the line fits its
-- buffer, and the texts hold no space or newline and no letter of a variable behind them.
pub parse_line-load_line :
    (append image images_uuid config_uuid : Bytes)
    → IsHandover append image images_uuid config_uuid
    → Lacks newline append
    → length (proc_cmdline append image images_uuid config_uuid) < buf_max
    → parse_line (fgets buf_max (proc_cmdline append image images_uuid config_uuid))
      ≡ asked (in_images image) images_uuid
unfolding parse_line fgets
parse_line-load_line append image images_uuid config_uuid h n l =
    let (f, i, c) = load_line-get_cmdline_var append image images_uuid config_uuid h in
    let line = load_line (some append) image images_uuid config_uuid in
    let plain : Lacks newline (load_line (some append) image images_uuid config_uuid) =
      load_line-Lacks append image images_uuid config_uuid newline refl refl refl refl n
        h.image_word.no_newline h.images_word.no_newline h.config_word.no_newline in
    let whole : fgets buf_max (proc_cmdline append image images_uuid config_uuid)
        ≡ proc_cmdline append image images_uuid config_uuid =
      read_line-all 255 line plain (omega (arith, length-append line (newline ∷ []))) in
    let fits : length image < 248 = omega (
      arith,
      length-append line (newline ∷ []),
      length-load_line append image images_uuid config_uuid,
    ) in
    rw (whole, parse_line, f, i, c) (asked_file_of image images_uuid config_uuid fits)
