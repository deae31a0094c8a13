-- ===== src/Cmdline/Handover.antt =====
-- What linuxrc reads back from the line that `monoimage_load` gave to the kernel.
use monoimage.Prelude.{
  ℕ, ◌≡◌, refl, true, false, some, [], ◌∷◌, ◌++◌, ◌==◌, Bytes, codes, All-append, append_assoc,
}
use monoimage.CStr.Laws.{NotBefore-byte}
use monoimage.Cmdline.{value, get_cmdline_var, load_line}
use monoimage.Cmdline.Laws.{
  Lacks, lacks, lacks_of, space, newline, get_cmdline_var-value, get_cmdline_var-last,
}

-- A word without spaces and newlines.
pub record IsWord (w : Bytes) : Type 0 where
  pub no_space : Lacks space w
  pub no_newline : Lacks newline w

-- What the texts must be like: words, and no text in front of a variable holds its letter.
pub record IsHandover (append image images_uuid config_uuid : Bytes) : Type 0 where
  pub append_plain : Lacks b'F' append × Lacks b'I' append × Lacks b'C' append
  pub image_word : IsWord image
  pub image_plain : Lacks b'I' image × Lacks b'C' image
  pub images_word : IsWord images_uuid
  pub images_plain : Lacks b'C' images_uuid
  pub config_word : IsWord config_uuid

-- The line as /proc/cmdline shows it.
abbrev pub proc_cmdline : (append image images_uuid config_uuid : Bytes) → Bytes
proc_cmdline append image images_uuid config_uuid =
    load_line (some append) image images_uuid config_uuid ++ newline ∷ []

-- The text in front of each variable, and the rest of the line behind it.
abbrev before_f : Bytes → Bytes
before_f append = codes "root=/dev/loop0 ro " ++ (append ++ codes " ")

abbrev before_i : Bytes → Bytes → Bytes
before_i append image = before_f append ++ (codes "F=" ++ (image ++ codes " "))

abbrev before_c : Bytes → Bytes → Bytes → Bytes
before_c append image images_uuid =
    before_i append image ++ (codes "I=" ++ (images_uuid ++ codes " "))

module _ (append image images_uuid config_uuid : Bytes) where
  line_at_f :
      proc_cmdline append image images_uuid config_uuid
      ≡ before_f append
        ++ ((codes "F" ++ b'=' ∷ image)
            ++ space
              ∷ (codes "I=" ++ (images_uuid ++ (codes " C=" ++ (config_uuid ++ newline ∷ [])))))
  unfolding load_line
  line_at_f = simp append_assoc

  line_at_i :
      proc_cmdline append image images_uuid config_uuid
      ≡ before_i append image
        ++ ((codes "I" ++ b'=' ∷ images_uuid)
            ++ space ∷ (codes "C=" ++ (config_uuid ++ newline ∷ [])))
  unfolding load_line
  line_at_i = simp append_assoc

  line_at_c :
      proc_cmdline append image images_uuid config_uuid
      ≡ before_c append image images_uuid ++ ((codes "C" ++ b'=' ∷ config_uuid) ++ newline ∷ [])
  unfolding load_line
  line_at_c = simp append_assoc

Lacks-append : (c : ℕ) (xs ys : Bytes) → Lacks c xs → Lacks c ys → Lacks c (xs ++ ys)
Lacks-append c xs ys = All-append (λ x. (c == x) ≡ false) xs ys

before_f-Lacks :
    (c : ℕ) (append : Bytes)
    → lacks c (codes "root=/dev/loop0 ro ") ≡ true
    → lacks c (codes " ") ≡ true
    → Lacks c append
    → Lacks c (before_f append)
before_f-Lacks c append h s a =
    let front = lacks_of c (codes "root=/dev/loop0 ro ") h in
    let blank = lacks_of c (codes " ") s in
    Lacks-append c (codes "root=/dev/loop0 ro ") (append ++ codes " ") front
      (Lacks-append c append (codes " ") a blank)

-- Another variable and its value, in front of the one that is looked for.
lacks_field :
    (c : ℕ) (pre name v : Bytes)
    → lacks c name ≡ true
    → lacks c (codes " ") ≡ true
    → Lacks c pre
    → Lacks c v
    → Lacks c (pre ++ (name ++ (v ++ codes " ")))
lacks_field c pre name v n s p w = Lacks-append c pre (name ++ (v ++ codes " ")) p (
    Lacks-append c name (v ++ codes " ") (lacks_of c name n)
      (Lacks-append c v (codes " ") w (lacks_of c (codes " ") s)))

-- linuxrc reads back the image file and the two identifiers that `monoimage_load` wrote, where the
-- texts hold no space or newline and no text in front of F, I or C holds that letter.
pub load_line-get_cmdline_var :
    (append image images_uuid config_uuid : Bytes)
    → IsHandover append image images_uuid config_uuid
    → (get_cmdline_var (proc_cmdline append image images_uuid config_uuid) (codes "F")
        ≡ value image)
      × (get_cmdline_var (proc_cmdline append image images_uuid config_uuid) (codes "I")
          ≡ value images_uuid)
      × (get_cmdline_var (proc_cmdline append image images_uuid config_uuid) (codes "C")
          ≡ value config_uuid)
load_line-get_cmdline_var append image images_uuid config_uuid h =
    let (f, i, c) = h.append_plain in
    let f_before = before_f-Lacks b'F' append refl refl f in
    let i_before = before_f-Lacks b'I' append refl refl i in
    let c_before = before_f-Lacks b'C' append refl refl c in
    let i_image =
      lacks_field b'I' (before_f append) (codes "F=") image refl refl i_before h.image_plain.0 in
    let c_image =
      lacks_field b'C' (before_f append) (codes "F=") image refl refl c_before h.image_plain.1 in
    let c_uuid =
      lacks_field b'C' (before_i append image) (codes "I=") images_uuid refl refl c_image
        h.images_plain in
    (
      rw (line_at_f append image images_uuid config_uuid) (
          get_cmdline_var-value (before_f append) (codes "F") image _ b'='
            (NotBefore-byte (before_f append) _ [] b'F' f_before)
            (refl, (refl, h.image_word.no_space))),
      rw (line_at_i append image images_uuid config_uuid) (
          get_cmdline_var-value (before_i append image) (codes "I") images_uuid _ b'='
            (NotBefore-byte (before_i append image) _ [] b'I' i_image)
            (refl, (refl, h.images_word.no_space))),
      rw (line_at_c append image images_uuid config_uuid) (
          get_cmdline_var-last (before_c append image images_uuid) (codes "C") config_uuid b'='
            (NotBefore-byte (before_c append image images_uuid) _ [] b'C' c_uuid)
            (refl, (refl, h.config_word.no_space)) (refl, (refl, h.config_word.no_newline))),
    )

-- The text that `cmd_boot` puts in front: a CONFIG variable for the user programs.
abbrev pub with_config : Bytes → Bytes → Bytes
with_config console path = console ++ (codes " ide=nodma CONFIG=" ++ path)

line_at_config :
    (console path image images_uuid config_uuid : Bytes)
    → proc_cmdline (with_config console path) image images_uuid config_uuid
      ≡ (codes "root=/dev/loop0 ro " ++ (console ++ codes " ide=nodma CON"))
        ++ ((codes "F" ++ b'I' ∷ (codes "G=" ++ path))
            ++ space
              ∷ (codes "F="
                  ++ (image
                      ++ (codes " I="
                          ++ (images_uuid ++ (codes " C=" ++ (config_uuid ++ newline ∷ [])))))))
unfolding load_line
line_at_config console path image images_uuid config_uuid = simp append_assoc

-- With a CONFIG variable in the text of --command-line, as `cmd_boot` writes it, linuxrc takes the F
-- inside CONFIG for its variable F: in the whole line, where fgets does not cut it, the file name that
-- it reads is `G=` and the path of the configuration. The text of the console must hold no F, and the
-- path no space; the image and the identifiers do not matter.
pub get_cmdline_var-with_config :
    (console path image images_uuid config_uuid : Bytes)
    → Lacks b'F' console
    → Lacks space path
    → get_cmdline_var
        (proc_cmdline (with_config console path) image images_uuid config_uuid)
        (codes "F")
      ≡ value (codes "G=" ++ path)
get_cmdline_var-with_config console path image images_uuid config_uuid f s =
    let before = codes "root=/dev/loop0 ro " ++ (console ++ codes " ide=nodma CON") in
    let plain : Lacks b'F' (codes "root=/dev/loop0 ro " ++ (console ++ codes " ide=nodma CON")) =
      Lacks-append b'F' (codes "root=/dev/loop0 ro ") (console ++ codes " ide=nodma CON")
        (lacks_of b'F' (codes "root=/dev/loop0 ro ") refl)
        (Lacks-append b'F' console (codes " ide=nodma CON") f
          (lacks_of b'F' (codes " ide=nodma CON") refl)) in
    rw (line_at_config console path image images_uuid config_uuid) (
      get_cmdline_var-value before (codes "F") (codes "G=" ++ path) _ b'I'
        (NotBefore-byte before _ [] b'F' plain) (refl, (refl, (refl, (refl, s)))))
