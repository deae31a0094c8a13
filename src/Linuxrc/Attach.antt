-- ===== src/Linuxrc/Attach.antt =====
-- What linuxrc has done when it reports success.
use monoimage.Prelude.{
  ℕ, ◌+◌, ◌≤◌, ◌<◌, ◌^◌, ◌≡◌, ◌⊎◌, refl, inl, inr, true, false, some, List, [], ◌∷◌, ◌++◌, ap,
  Bytes, codes, length, arith, ◌∙◌, Bool-cases, Option-cases,
}
use monoimage.Image.{old_header_size, decode_linuxrc, make_image, header_size}
use monoimage.Image.Laws.{linuxrc_offset}
use monoimage.Linuxrc.{
  Kernel, Event, Trace, unmounted, success, mounted, attached, offset_set, cleared, images_dir,
  in_images, fs_dev, fs_img, loop_dev, Asked, asked, missing, overrun, WalkEnd, found, no_device,
  too_long, walk, lo_offset, set_loop, attach, umount_images, check_image, after_walk, find_device,
  parse_line, read_line_of, read_cmdline, main, ext2_uuid,
}

-- What the call of `set_loop` for the image did after the trace `before`: all of it, at the offset as
-- a signed number of 32 bits; or nothing, or the image was attached and detached again.
abbrev pub SetLoopEnds : (image : Bytes) (offset : ℕ) (before end : Trace) → Type 0
SetLoopEnds image offset before end =
    (end ≡ offset_set loop_dev (lo_offset offset) ∷ attached loop_dev image ∷ before)
    ⊎ ((end ≡ before) ⊎ (end ≡ cleared loop_dev ∷ attached loop_dev image ∷ before))

-- The trace has grown from another one.
abbrev pub Grown : Trace → Trace → Type 0
Grown start t = (events : Trace) × (t ≡ events ++ start)

Grown-cons : (start t : Trace) (e : Event) → Grown start t → Grown start (e ∷ t)
Grown-cons start t e (events, same) = (e ∷ events, ap (◌∷◌ e) same)

-- The image that was used, after what was done since `start`, and what was done with it: it was there, its header was read, and
-- `set_loop` was called with the offset that the header gives.
pub record IsAttached (k : Kernel) (image : Bytes) (start end : Trace) : Type 0 where
  pub before : Trace
  pub since : Grown start before
  pub text : Bytes
  pub there : k.stat_ok before image ≡ true
  pub contents : k.file before image ≡ some text
  pub header_read : old_header_size ≤ length text
  pub set_up : end ≡ (set_loop k loop_dev image (decode_linuxrc text).rootfs_offset before).1
  pub ends : SetLoopEnds image (decode_linuxrc text).rootfs_offset before end

module _ (k : Kernel) where
  set_loop-ends :
      (image : Bytes) (offset : ℕ) (t : Trace)
      → SetLoopEnds image offset t (set_loop k loop_dev image offset t).1
  unfolding set_loop
  set_loop-ends image offset t = elim (Bool-cases (k.open_rw_ok t image)) [
    | inr e ↦ inr (inl (rw e refl))
    | inl e ↦ elim (Bool-cases (k.open_rw_ok t loop_dev)) [
      | inr f ↦ inr (inl (rw (e, f) refl))
      | inl f ↦ elim (Bool-cases (k.set_fd_ok t loop_dev image)) [
        | inr g ↦ inr (inl (rw (e, f, g) refl))
        | inl g ↦
            elim (Bool-cases
              (k.set_status_ok (attached loop_dev image ∷ t) loop_dev (lo_offset offset))) [
                | inr h ↦ inr (inr (rw (e, f, g, h) refl))
                | inl h ↦ inl (rw (e, f, g, h) refl)
              ]
      ]
    ]
  ]

  attach-IsAttached :
      (start : Trace) (image : Bytes) (t : Trace)
      → Grown start t
      → k.stat_ok t image ≡ true
      → (attach k image t).0 ≡ success
      → IsAttached k image start (attach k image t).1
  unfolding attach
  attach-IsAttached start image t g there h = elim (Option-cases (k.file t image)) [
    | inl e ↦ absurd (ground arith)
    | inr (text, e) ↦
        let offset = (decode_linuxrc text).rootfs_offset in
        let done : (attach k image t).1 ≡ (set_loop k loop_dev image offset t).1 = ground arith in
        record {
          before = t;
          since = g;
          text = text;
          there = there;
          contents = e;
          header_read = ground arith;
          set_up = done;
          ends = rw done (set_loop-ends image offset t);
        }
  ]

  umount_images-Grown : (start t : Trace) → Grown start t → Grown start (umount_images k t)
  unfolding umount_images
  umount_images-Grown start t g = elim (Bool-cases (k.umount_ok t images_dir)) [
    | inl e ↦ rw (e, umount_images) (Grown-cons start t (unmounted images_dir) g)
    | inr e ↦ rw (e, umount_images) g
  ]

  check_image-IsAttached :
      (start : Trace) (image : Bytes) (t : Trace)
      → Grown start t
      → (check_image k image t).0 ≡ success
      → IsAttached k image start (check_image k image t).1
        ⊎ IsAttached k (in_images fs_img) start (check_image k image t).1
  unfolding check_image
  check_image-IsAttached start image t g h = elim (Bool-cases (k.stat_ok t image)) [
    | inl e ↦
        inl (rw (e, check_image) (attach-IsAttached start image t g e (rw (e, check_image) at h)))
    | inr e ↦
        let t₂ = mounted fs_dev images_dir ∷ umount_images k t in
        let m : k.mount_ok (umount_images k t) fs_dev images_dir ≡ true = ground arith in
        let s : k.stat_ok (mounted fs_dev images_dir ∷ umount_images k t) (in_images fs_img)
            ≡ true =
          ground arith in
        inr (
          rw (e, m, s, check_image)
            (attach-IsAttached start (in_images fs_img) t₂
              (Grown-cons start (umount_images k t) (mounted fs_dev images_dir)
                (umount_images-Grown start t g))
              s (rw (e, m, s, check_image) at h)))
  ]

  -- The line that was read, what it asks for, and the image that was attached for it: the one that
  -- the line names, or the failsafe image.
  pub record IsBooted (start end : Trace) : Type 0 where
    pub line : Bytes
    pub imagefile : Bytes
    pub imageuuid : Bytes
    pub read : read_line_of k start ≡ some line
    pub names : parse_line line ≡ asked imagefile imageuuid
    pub used : IsAttached k imagefile start end ⊎ IsAttached k (in_images fs_img) start end

  after_walk-IsAttached :
      (start : Trace) (image : Bytes) (w : WalkEnd) (t : Trace)
      → Grown start t
      → (after_walk k image w t).0 ≡ success
      → IsAttached k image start (after_walk k image w t).1
        ⊎ IsAttached k (in_images fs_img) start (after_walk k image w t).1
  unfolding after_walk
  after_walk-IsAttached start image (found dev) t g h =
      elim (Bool-cases (k.mount_ok t dev images_dir)) [
        | inl e ↦
            rw (e, after_walk)
              (check_image-IsAttached start image (mounted dev images_dir ∷ t)
                (Grown-cons start t (mounted dev images_dir) g) (rw (e, after_walk) at h))
        | inr e ↦ absurd (ground arith)
      ]
  after_walk-IsAttached start image no_device t g h = check_image-IsAttached start image t g h
  after_walk-IsAttached start image too_long t g h = absurd (ground arith)

  find_device_at :
      (image uuid : Bytes) (t : Trace) (names : List Bytes)
      → k.dev_names ≡ some names
      → find_device k (asked image uuid) t ≡ after_walk k image (walk k uuid names) t
  unfolding find_device
  find_device_at image uuid t names e = ground arith

  find_device-IsAttached :
      (a : Asked) (t : Trace)
      → (find_device k a t).0 ≡ success
      → (image : Bytes) × (uuid : Bytes) × (a ≡ asked image uuid)
        × (IsAttached k image t (find_device k a t).1
            ⊎ IsAttached k (in_images fs_img) t (find_device k a t).1)
  unfolding find_device
  find_device-IsAttached (asked image uuid) t h = elim (Option-cases k.dev_names) [
    | inl e ↦ absurd (ground arith)
    | inr (names, e) ↦ (
      image,
      uuid,
      refl,
      rw (find_device_at image uuid t names e) (
          after_walk-IsAttached t image (walk k uuid names) t ([], refl)
            (rw (find_device_at image uuid t names e) at h)),
    )
  ]
  find_device-IsAttached missing t h = absurd (ground arith)
  find_device-IsAttached overrun t h = absurd (ground arith)

  read_cmdline-IsBooted :
      (t : Trace) → (read_cmdline k t).0 ≡ success → IsBooted t (read_cmdline k t).1
  unfolding read_cmdline
  read_cmdline-IsBooted t h = elim (Option-cases (read_line_of k t)) [
    | inl e ↦ absurd (ground arith)
    | inr (line, e) ↦
        let (image, uuid, names, used) =
          find_device-IsAttached (parse_line line) t (rw (e, read_cmdline) at h) in
        record {
          line = line;
          imagefile = image;
          imageuuid = uuid;
          read = e;
          names = names;
          used = rw (e, read_cmdline) used;
        }
  ]

  -- Where linuxrc exits with success, it has read, after it mounted /proc, a line that names an image
  -- and a device, the image of that name or else the failsafe image was there, and its header could be
  -- read. The last thing done was to call `set_loop` with the offset in linuxrc's header, which is
  -- taken as a signed number of 32 bits: the loop device was set up at it, or that failed and the image
  -- was not attached, or was detached again.
  pub main-IsBooted :
      (t : Trace)
      → (main k t).0 ≡ success
      → IsBooted (mounted (codes "proc") (codes "/proc") ∷ t) (main k t).1
  unfolding main
  main-IsBooted t h = elim (Bool-cases (k.mount_ok t (codes "proc") (codes "/proc"))) [
    | inl e ↦
        rw (e, main)
          (read_cmdline-IsBooted (mounted (codes "proc") (codes "/proc") ∷ t) (rw (e, main) at h))
    | inr e ↦ absurd (ground arith)
  ]

-- In an image that makeimage.pl wrote, and whose header, kernel and ramdisk are shorter than 2^31 bytes
-- together, linuxrc calls `set_loop` with the offset at which the ramdisk starts.
pub IsAttached-make_image :
    (k : Kernel) (image : Bytes) (start end : Trace) (a : IsAttached k image start end)
    (format runfrom : ℕ) (kernel ramdisk rootfs : Bytes)
    → a.text ≡ make_image format runfrom kernel ramdisk rootfs
    → header_size + length kernel + length ramdisk < 2 ^ 31
    → end ≡ (set_loop k loop_dev image (header_size + length kernel) a.before).1
IsAttached-make_image k image start end a format runfrom kernel ramdisk rootfs e small =
    let offset = linuxrc_offset format runfrom kernel ramdisk rootfs small in
    a.set_up ∙ rw (e, offset)

-- A kernel with the same answers, in which no loop device can be set up.
abbrev pub without_loop : Kernel → Kernel
without_loop k = record {
  mount_ok = k.mount_ok;
  umount_ok = k.umount_ok;
  stat_ok = k.stat_ok;
  file = k.file;
  dev_names = k.dev_names;
  is_block = k.is_block;
  superblock_uuid = k.superblock_uuid;
  open_rw_ok = λ t path. false;
  set_fd_ok = λ t device path. false;
  set_status_ok = λ t device offset. false;
}

module _ (k : Kernel) where
  attach-without_loop : (i : Bytes) (t : Trace) → (attach (without_loop k) i t).0 ≡ (attach k i t).0
  unfolding attach
  attach-without_loop i t = elim (Option-cases (k.file t i)) [
    | inl e ↦ ground arith
    | inr (text, e) ↦ ground arith
  ]

  check_image-without_loop :
      (i : Bytes) (t : Trace) → (check_image (without_loop k) i t).0 ≡ (check_image k i t).0
  unfolding check_image umount_images
  check_image-without_loop i t =
      let t₁ = umount_images k t in
      ground (
        arith,
        attach-without_loop i t,
        attach-without_loop (in_images fs_img) (mounted fs_dev images_dir ∷ umount_images k t),
      )

  walk-without_loop :
      (u : Bytes) (names : List Bytes) → walk (without_loop k) u names ≡ walk k u names
  unfolding walk ext2_uuid
  walk-without_loop u [] = refl
  walk-without_loop u (n ∷ names) = rw (walk-without_loop u names)

  after_walk-without_loop :
      (i : Bytes) (w : WalkEnd) (t : Trace)
      → (after_walk (without_loop k) i w t).0 ≡ (after_walk k i w t).0
  unfolding after_walk
  after_walk-without_loop i (found dev) t =
      ground (arith, check_image-without_loop i (mounted dev images_dir ∷ t))
  after_walk-without_loop i no_device t = check_image-without_loop i t
  after_walk-without_loop i too_long t = refl

  find_device-without_loop :
      (a : Asked) (t : Trace) → (find_device (without_loop k) a t).0 ≡ (find_device k a t).0
  unfolding find_device
  find_device-without_loop (asked i u) t = elim (Option-cases k.dev_names) [
    | inl e ↦ rw e
    | inr (names, e) ↦
        rw (e, find_device, walk-without_loop u names)
          (after_walk-without_loop i (walk k u names) t)
  ]
  find_device-without_loop missing t = refl
  find_device-without_loop overrun t = refl

  read_line_of-without_loop : (t : Trace) → read_line_of (without_loop k) t ≡ read_line_of k t
  unfolding read_line_of
  read_line_of-without_loop t = refl

  read_cmdline-without_loop :
      (t : Trace) → (read_cmdline (without_loop k) t).0 ≡ (read_cmdline k t).0
  unfolding read_cmdline
  read_cmdline-without_loop t = elim (Option-cases (read_line_of k t)) [
    | inl e ↦ rw (read_line_of-without_loop t, e, read_cmdline)
    | inr (line, e) ↦
        rw (read_line_of-without_loop t, e, read_cmdline)
          (find_device-without_loop (parse_line line) t)
  ]

  -- linuxrc ends in the same way when no loop device can be set up: that failure is never noticed.
  main-without_loop : (t : Trace) → (main (without_loop k) t).0 ≡ (main k t).0
  unfolding main
  main-without_loop t =
      ground (arith, read_cmdline-without_loop (mounted (codes "proc") (codes "/proc") ∷ t))
