-- ===== src/Monoboot/Exec/Copy.antt =====
-- Which host and file a copy by tftp names.
use monoimage.Prelude.{ℕ, ◌≡◌, refl, false, some, [], ◌∷◌, ◌++◌, Bytes, codes, All}
use monoimage.CStr.{has_prefix}
use monoimage.Os.{Os, Trace}
use monoimage.Monoboot.Exec.{
  slash, is_slash, to_slash, skip_slashes, cut_at_slash, parse_get, parse_put, parse_transfer, get,
  put, tftp_args, tftp_binary, do_exec, do_tftp,
}

-- A text without slashes.
abbrev pub NoSlash : Bytes → Type 0
NoSlash = All (λ x. is_slash x ≡ false)

cut_at_slash-append :
    (name rest : Bytes) → NoSlash name → cut_at_slash (name ++ slash ∷ rest) ≡ some (name, rest)
unfolding cut_at_slash
cut_at_slash-append [] rest h = refl
cut_at_slash-append (x ∷ name) rest h = rw (h.0, cut_at_slash-append name rest h.1)

module _ (h : ℕ) (host : Bytes) (no_slash : NoSlash (h ∷ host)) where
  cut_at_slash-host :
      (rest : Bytes)
      → cut_at_slash (skip_slashes ((h ∷ host) ++ slash ∷ rest)) ≡ some (h ∷ host, rest)
  unfolding skip_slashes
  cut_at_slash-host rest = rw (no_slash.0, cut_at_slash-append (h ∷ host) rest no_slash)

  parse_get-host :
      (file : Bytes)
      → parse_get (codes "tftp://" ++ ((h ∷ host) ++ slash ∷ file))
        ≡ get (h ∷ host) (skip_slashes file)
  unfolding parse_get to_slash skip_slashes
  parse_get-host file = rw (cut_at_slash-host file, parse_get)

  parse_put-host :
      (file rest : Bytes)
      → parse_put (codes "disk:/" ++ file) (codes "tftp://" ++ ((h ∷ host) ++ slash ∷ rest))
        ≡ put (h ∷ host) (skip_slashes file)
  unfolding parse_put to_slash skip_slashes cut_at_slash
  parse_put-host file rest = rw (cut_at_slash-host rest, parse_put)

  -- A copy from `tftp://host/file` to the disk, and one from the disk to `tftp://host/`, run the tftp
  -- program with the host, `get` or `put`, and the file without leading slashes; the result is that of
  -- the program. The host is not empty and holds no slash.
  do_tftp-host :
      (os : Os) (file other : Bytes) (t : Trace)
      → (do_tftp os (codes "tftp://" ++ ((h ∷ host) ++ slash ∷ file)) (codes "disk:/" ++ other) t
          ≡ some
              (do_exec os tftp_binary (tftp_args (h ∷ host) (codes "get") (skip_slashes file)) t))
        × (do_tftp os (codes "disk:/" ++ file) (codes "tftp://" ++ ((h ∷ host) ++ slash ∷ other)) t
            ≡ some
                (do_exec os tftp_binary (tftp_args (h ∷ host) (codes "put") (skip_slashes file)) t))
  unfolding do_tftp parse_transfer has_prefix
  do_tftp-host os file other t =
      (rw (parse_get-host file, do_tftp), rw (parse_put-host file other, do_tftp))
