-- ===== src/Image/Laws.antt =====
-- What the readers find in an image that makeimage.pl wrote.
use monoimage.Prelude.{
  ℕ, ◌+◌, ◌^◌, ◌<◌, ◌≡◌, refl, ap, sym, ◌∙◌, false, some, ◌++◌, ltb, Bytes, length, arith,
  length-append, take-append, drop-append, append_assoc,
}
use monoimage.CStr.{has_prefix}
use monoimage.Image.{
  le_word, le_bytes, field_at, decode_kexec, decode_linuxrc, header_size, make_header, make_image,
  image, monoimage_probe, slice, distance, parts_at, load_parts,
}

le_word-le_bytes4 : (n : ℕ) → n < 2 ^ 32 → le_word (le_bytes 4 n) ≡ n
unfolding le_word le_bytes
le_word-le_bytes4 n h = omega arith

-- The sizes fit the offsets.
abbrev pub IsSized : (kernel ramdisk : Bytes) → Type 0
IsSized kernel ramdisk = header_size + length kernel + length ramdisk < 2 ^ 31

-- The copy of a part that stands behind `front` and in front of `back`.
slice-middle :
    (front part back : Bytes) (offset len : ℕ)
    → offset ≡ length front
    → len ≡ length part
    → slice (front ++ (part ++ back)) offset len ≡ some part
unfolding slice
slice-middle front part back offset len o l =
    let whole = length-append front (part ++ back) in
    let rest = length-append part back in
    let inside : ltb (length (front ++ (part ++ back))) (length front + length part) ≡ false =
      ground arith in
    rw (o, l, inside, drop-append front (part ++ back), take-append part back)

distance_lem : (a b : ℕ) → b < 2 ^ 32 → distance a (a + b) ≡ b
unfolding distance
distance_lem a b h = omega arith

module _ (format runfrom : ℕ) (kernel ramdisk rootfs : Bytes)
    (small : header_size + length kernel + length ramdisk < 2 ^ 31) where
  kexec_offsets :
      ((decode_kexec (make_image format runfrom kernel ramdisk rootfs)).kernel_offset ≡ header_size)
      × ((decode_kexec (make_image format runfrom kernel ramdisk rootfs)).ramdisk_offset
          ≡ header_size + length kernel)
      × ((decode_kexec (make_image format runfrom kernel ramdisk rootfs)).rootfs_offset
          ≡ header_size + length kernel + length ramdisk)
  unfolding decode_kexec make_image make_header field_at le_word
  kexec_offsets = (refl, omega arith, omega arith)

  -- linuxrc's own header puts `rootfs_offset` where the image has its ramdisk offset.
  pub linuxrc_offset :
      (decode_linuxrc (make_image format runfrom kernel ramdisk rootfs)).rootfs_offset
      ≡ header_size + length kernel
  unfolding decode_linuxrc make_image make_header field_at le_word
  linuxrc_offset = omega arith

  pub probe_image : monoimage_probe (make_image format runfrom kernel ramdisk rootfs) ≡ image
  unfolding monoimage_probe make_image make_header decode_kexec field_at le_word has_prefix
  probe_image = ground arith

  ramdisk_part :
      slice
        (make_image format runfrom kernel ramdisk rootfs)
        (header_size + length kernel)
        (distance (header_size + length kernel) (header_size + length kernel + length ramdisk))
      ≡ some ramdisk
  unfolding make_image make_header
  ramdisk_part =
      let header = make_header format runfrom (length kernel) (length ramdisk) in
      ap
        (λ i.
          slice i (header_size + length kernel)
            (distance (header_size + length kernel) (header_size + length kernel + length ramdisk)))
        (sym (append_assoc header kernel (ramdisk ++ rootfs)))
      ∙ slice-middle (header ++ kernel) ramdisk rootfs (header_size + length kernel)
          (distance (header_size + length kernel) (header_size + length kernel + length ramdisk))
          (sym (length-append header kernel))
          (distance_lem (header_size + length kernel) (length ramdisk) (omega arith))

  kernel_part :
      slice
        (make_image format runfrom kernel ramdisk rootfs)
        header_size
        (distance header_size (header_size + length kernel))
      ≡ some kernel
  unfolding make_image make_header
  kernel_part =
      slice-middle (make_header format runfrom (length kernel) (length ramdisk)) kernel
        (ramdisk ++ rootfs) header_size (distance header_size (header_size + length kernel)) refl
        (distance_lem header_size (length kernel) (omega arith))

  parts_image :
      parts_at
        (make_image format runfrom kernel ramdisk rootfs)
        header_size
        (header_size + length kernel)
        (header_size + length kernel + length ramdisk)
      ≡ some (record { kernel = kernel; ramdisk = ramdisk })
  unfolding parts_at
  parts_image = rw (ramdisk_part, kernel_part, parts_at)

  -- From an image that makeimage.pl wrote, whose parts are small enough for the offsets, the reader of
  -- kexec copies back the kernel and the ramdisk that were put in.
  pub load_image :
      load_parts (make_image format runfrom kernel ramdisk rootfs)
      ≡ some (record { kernel = kernel; ramdisk = ramdisk })
  unfolding load_parts
  load_image = let (ko, ro, fo) = kexec_offsets in rw (ko, ro, fo, parts_image)
