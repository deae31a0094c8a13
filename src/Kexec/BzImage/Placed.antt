-- ===== src/Kexec/BzImage/Placed.antt =====
-- Where the loader puts the kernel, its parameters and its ramdisk.
use monoimage.Prelude.{
  ℕ, ◌+◌, ◌-◌, ◌≤◌, ◌<◌, ◌≡◌, ◌∙◌, sym, ap, inl, inr, false, Option, some, List, [], ◌∷◌, ◌++◌,
  Bytes, length, All, All-append, Bool-cases, arith, length-append,
}
use monoimage.Kexec.{word, MemoryRange, KexecSegment, KexecInfo, Machine, returned, Outcome-cases}
use monoimage.Kexec.Hole.{Request, highest}
use monoimage.Kexec.Hole.Free.{IsPlaced}
use monoimage.Kexec.Hole.Place.{IsMultiple}
use monoimage.Kexec.Hole.Locate.{IsServable}
use monoimage.Kexec.Add.{add_segment, add_buffer}
use monoimage.Kexec.Add.Laws.{IsPaged, IsNew, add_segment-IsNew}
use monoimage.Kexec.Add.Buffer.{IsAdded, add_buffer-IsAdded, new_IsPlaced}
use monoimage.Kexec.Setup.{Buffer, initrd_request, setup_linux_bootloader_parameters, setup_memory}
use monoimage.Kexec.Setup.Ramdisk.{IsPassed, setup_linux_bootloader_parameters-IsPassed}
use monoimage.Kexec.BzImage.{
  linux_header_size, kern16_size, real_mode_of, Purgatory, BuildLoad, Places, setup_request,
  place_setup, kern32_base, entry_of, regs_of, Loaded, with_map, LoadFlags, finish_load,
  load_kernel, load_setup, do_bz_image_load,
}

module _ (m : Machine) (at : Places) (kernel cmdline : Bytes) (initrd : Option Buffer)
    (f : LoadFlags) (ranges : Option (List MemoryRange)) where
  finish_load-cases :
      (info : KexecInfo) (p : Purgatory) (base : ℕ) (l : Loaded)
      → finish_load m info p kernel base cmdline initrd f ranges ≡ returned l
      → (setup_linux_bootloader_parameters m info
            (real_mode_of kernel)
            base
            (kern16_size kernel)
            cmdline
            initrd
          ≡ returned (l.info, l.real_mode))
        × (l.regs ≡ regs_of p base f.real_mode_entry f.debug)
  unfolding finish_load with_map
  finish_load-cases info p base l h =
      elim (Outcome-cases (
        setup_linux_bootloader_parameters m info (real_mode_of kernel) base (kern16_size kernel)
          cmdline initrd)) [
            | inl ((info', r), e) ↦ elim (Bool-cases f.real_mode_entry) [
              | inl b ↦ (ground (arith, h, e, b), ground (arith, h, e, b))
              | inr b ↦ elim (Outcome-cases (setup_memory ranges)) [
                | inl (map, g) ↦ (ground (arith, h, e, b, g), ground (arith, h, e, b, g))
                | inr (d, g) ↦ absurd (ground (arith, h, e, b, g))
              ]
            ]
            | inr (d, e) ↦ absurd (ground (arith, h, e))
          ]

  load_kernel-cases :
      (info : KexecInfo) (p : Purgatory) (base : ℕ) (l : Loaded)
      → load_kernel m info p at kernel base cmdline initrd f ranges ≡ returned l
      → (info' : KexecInfo) × (base ≤ p.rel_addr)
        × (add_segment m info
              (at.kernel_at + kern16_size kernel)
              (length kernel - kern16_size kernel)
              kern32_base
              (length kernel - kern16_size kernel)
            ≡ returned info')
        × (finish_load m info' p kernel base cmdline initrd f ranges ≡ returned l)
  unfolding load_kernel
  load_kernel-cases info p base l h =
      let size = length kernel - kern16_size kernel in
      elim (Outcome-cases
        (add_segment m info (at.kernel_at + kern16_size kernel) size kern32_base size)) [
          | inl (info', e) ↦ (info', ground (arith, h, e), e, ground (arith, h, e))
          | inr (d, e) ↦ absurd (ground (arith, h, e))
        ]

  load_setup-cases :
      (info : KexecInfo) (p : Purgatory) (l : Loaded)
      → load_setup m info p at kernel cmdline initrd f ranges ≡ returned l
      → (info' : KexecInfo) × (base : ℕ) × (place_setup m info
            (real_mode_of kernel).protocol_version
            at.real_mode_at
            (kern16_size kernel + length cmdline)
          ≡ returned (info', base))
        × (load_kernel m info' p at kernel base cmdline initrd f ranges ≡ returned l)
  unfolding load_setup
  load_setup-cases info p l h =
      elim (Outcome-cases (
        place_setup m info (real_mode_of kernel).protocol_version at.real_mode_at
          (kern16_size kernel + length cmdline))) [
            | inl ((info', base), e) ↦ (info', base, e, ground (arith, h, e))
            | inr (d, e) ↦ absurd (ground (arith, h, e))
          ]

  do_bz_image_load-cases :
      (build : BuildLoad) (info : KexecInfo) (l : Loaded)
      → do_bz_image_load m build info at kernel cmdline initrd f ranges ≡ returned (some l)
      → (info' : KexecInfo) × (p : Purgatory) × (build info ≡ returned (info', p))
        × (linux_header_size ≤ length kernel)
        × (load_setup m info' p at kernel cmdline initrd f ranges ≡ returned l)
  unfolding do_bz_image_load
  do_bz_image_load-cases build info l h = elim (Outcome-cases (build info)) [
    | inl ((info', p), e) ↦
        elim (Outcome-cases (load_setup m info' p at kernel cmdline initrd f ranges)) [
          | inl (l', g) ↦ (info', p, e, ground (arith, h, e, g), ground (arith, h, e, g))
          | inr (d, g) ↦ absurd (ground (arith, h, e, g))
        ]
    | inr (d, e) ↦ absurd (ground (arith, h, e))
  ]

place_setup-add_buffer :
    (m : Machine) (info : KexecInfo) (version at size : ℕ)
    → 512 ≤ version
    → place_setup m info version at size ≡ add_buffer m info at size (setup_request size) highest
unfolding place_setup
place_setup-add_buffer m info version at size h = ground (arith, h)

-- The segments that a segment more leaves placed.
add_segment-All :
    (m : Machine) (q : Request) (info info' : KexecInfo) (buf bufsz base memsz : ℕ)
    → IsServable m q
    → IsPaged m
    → base < word
    → memsz + m.page_size ≤ word
    → 0 < memsz
    → add_segment m info buf bufsz base memsz ≡ returned info'
    → All (IsPlaced m.memory_range) info.segment
    → All (λ s. IsMultiple m.page_size s.mem) info.segment
    → (s : KexecSegment) × (info'.segment ≡ info.segment ++ s ∷ [])
      × IsNew m buf bufsz base memsz s
      × All (IsPlaced m.memory_range) info'.segment
      × All (λ s. IsMultiple m.page_size s.mem) info'.segment
add_segment-All m q info info' buf bufsz base memsz ok p hb hs pos h placed paged =
    let (s, made, n) =
      add_segment-IsNew m info info' buf bufsz base memsz p hb hs (omega (arith, pos)) h in
    (
      s,
      made,
      n,
      rw made (
          All-append (IsPlaced m.memory_range) info.segment (s ∷ []) placed
            (new_IsPlaced m q buf bufsz base memsz s ok pos n, tt)),
      rw made (
          All-append (λ s. IsMultiple m.page_size s.mem) info.segment (s ∷ []) paged
            (rw n.at_base.1 n.page, tt)),
    )

-- The parts of the new kernel in memory, one after the other: its parameters, at or below the
-- purgatory, the kernel itself at 1M, and the ramdisk; and the start of the kernel, which is given
-- the address of its parameters.
pub record IsReady (m : Machine) (build : BuildLoad) (info : KexecInfo) (at : Places)
    (kernel line : Bytes) (ramdisk : Buffer) (l : Loaded) : Type 0 where
  pub with_purgatory : KexecInfo
  pub purgatory : Purgatory
  pub built : build info ≡ returned (with_purgatory, purgatory)
  pub with_setup : KexecInfo
  pub setup_base : ℕ
  pub setup :
      IsAdded m with_purgatory at.real_mode_at
        (kern16_size kernel + (length line + 1))
        (setup_request (kern16_size kernel + (length line + 1)))
        with_setup
        setup_base
  pub below : setup_base ≤ purgatory.rel_addr
  pub with_kernel : KexecInfo
  pub body : KexecSegment
  pub added : with_kernel.segment ≡ with_setup.segment ++ body ∷ []
  pub is_body :
      IsNew m
        (at.kernel_at + kern16_size kernel)
        (length kernel - kern16_size kernel)
        kern32_base
        (length kernel - kern16_size kernel)
        body
  pub passed : IsPassed m with_kernel (real_mode_of kernel) line ramdisk l.info l.real_mode
  pub parameters : l.regs.esi ≡ setup_base
  pub entry : l.regs.eip ≡ kern32_base

-- The machine can serve the requests of the loader, and the purgatory is placed like any segment.
pub record IsMachine (m : Machine) (build : BuildLoad) (info : KexecInfo) (kernel line : Bytes)
    (ramdisk : Buffer) : Type 0 where
  pub paged : IsPaged m
  pub setup_serves : IsServable m (setup_request (kern16_size kernel + (length line + 1)))
  pub ramdisk_serves : IsServable m (initrd_request (real_mode_of kernel) ramdisk.size)
  pub purgatory_placed :
      (i : KexecInfo) (p : Purgatory)
      → build info ≡ returned (i, p)
      → All (IsPlaced m.memory_range) i.segment × All (λ s. IsMultiple m.page_size s.mem) i.segment
  pub small : length kernel + m.page_size ≤ word

abbrev pub plain : LoadFlags
plain = record { real_mode_entry = false; debug = false }

-- Where `do_bzImage_load` loads a kernel of protocol 2.00 or later with a ramdisk, without the flags
-- for real mode and debugging, the kernel's parameters, its body and the ramdisk are segments in RAM;
-- the parameters lie at or below the purgatory and share no byte with it, the body is at 1M, the
-- ramdisk shares no byte with any of them, the parameters give its place and the command line, and the
-- kernel is started at 1M with the address of its parameters. For the parameters and the ramdisk the
-- ranges of RAM in the memory map are in order and end below 4G by more than the alignment, which is a
-- power of two; so is a page; and the segments of the purgatory begin on a page and lie in RAM.
pub do_bz_image_load-IsReady :
    (m : Machine) (build : BuildLoad) (info : KexecInfo) (at : Places) (kernel line : Bytes)
    (ramdisk : Buffer) (ranges : Option (List MemoryRange)) (l : Loaded)
    → IsMachine m build info kernel line ramdisk
    → 512 ≤ (real_mode_of kernel).protocol_version
    → kern16_size kernel < length kernel
    → 0 < ramdisk.size
    → do_bz_image_load m build info at kernel (line ++ 0 ∷ []) (some ramdisk) plain ranges
      ≡ returned (some l)
    → IsReady m build info at kernel line ramdisk l
unfolding regs_of entry_of
do_bz_image_load-IsReady m build info at kernel line ramdisk ranges l ok version body_pos pos h =
    let text = line ++ 0 ∷ [] in
    let len : length text ≡ length line + 1 = length-append line (0 ∷ []) in
    let (info₁, p, built, big, setup) =
      do_bz_image_load-cases m at kernel text (some ramdisk) plain ranges build info l h in
    let (info₂, base, placed₂, rest) =
      load_setup-cases m at kernel text (some ramdisk) plain ranges info₁ p l setup in
    let before = ok.purgatory_placed info₁ p built in
    let in_place : add_buffer m info₁ at.real_mode_at (kern16_size kernel + (length line + 1))
          (setup_request (kern16_size kernel + (length line + 1))) highest
        ≡ returned (info₂, base) =
      sym (
        place_setup-add_buffer m info₁ (real_mode_of kernel).protocol_version at.real_mode_at
          (kern16_size kernel + (length line + 1)) version)
      ∙ (rw len at placed₂) in
    let a =
      add_buffer-IsAdded m info₁ info₂ at.real_mode_at (kern16_size kernel + (length line + 1))
        (setup_request (kern16_size kernel + (length line + 1))) highest base ok.setup_serves
        ok.paged before.0 before.1 (omega arith) in_place in
    let (info₃, below, added, finish) =
      load_kernel-cases m at kernel text (some ramdisk) plain ranges info₂ p base l rest in
    let (s, made, n, placed₃, paged₃) =
      add_segment-All m (setup_request (kern16_size kernel + (length line + 1))) info₂ info₃
        (at.kernel_at + kern16_size kernel) (length kernel - kern16_size kernel) kern32_base
        (length kernel - kern16_size kernel) ok.setup_serves ok.paged (omega arith)
        (omega (arith, ok.small)) (omega arith) added a.placed a.paged in
    let (passed, regs) =
      finish_load-cases m at kernel text (some ramdisk) plain ranges info₃ p base l finish in
    record {
      with_purgatory = info₁;
      purgatory = p;
      built = built;
      with_setup = info₂;
      setup_base = base;
      setup = a;
      below = below;
      with_kernel = info₃;
      body = s;
      added = made;
      is_body = n;
      passed =
          setup_linux_bootloader_parameters-IsPassed m info₃ l.info (real_mode_of kernel)
            l.real_mode base (kern16_size kernel) line ramdisk ok.ramdisk_serves ok.paged placed₃
            paged₃ pos passed;
      parameters = ap (λ r. r.esi) regs;
      entry = ap (λ r. r.eip) regs;
    }
