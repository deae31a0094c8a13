-- ===== src/Kexec/Setup/Ramdisk.antt =====
-- The place of the ramdisk and the text of the command line.
use monoimage.Prelude.{
  ℕ, zero, suc, ◌+◌, ◌-◌, ◌≤◌, ◌<◌, ◌≡◌, refl, sym, ap, ◌∙◌, inl, inr, false, some, [], ◌∷◌, ◌++◌,
  ltb, ◌==◌, Bytes, length, take, All, arith, Bool-cases, length-append, if◌then◌else◌, ltb→le,
  if_false,
}
use monoimage.Kexec.{Outcome-cases, KexecInfo, Machine, returned}
use monoimage.Kexec.Hole.{highest}
use monoimage.Kexec.Hole.Free.{IsPlaced}
use monoimage.Kexec.Hole.Place.{IsMultiple}
use monoimage.Kexec.Hole.Locate.{IsServable}
use monoimage.Kexec.Add.{add_buffer}
use monoimage.Kexec.Add.Laws.{IsPaged}
use monoimage.Kexec.Add.Buffer.{IsAdded, add_buffer-IsAdded}
use monoimage.Kexec.Setup.{
  RealMode, Buffer, copy_cmdline, initrd_request, place_initrd, write_parameters,
  setup_linux_bootloader_parameters,
}

take-append_le : (n : ℕ) (xs ys : Bytes) → n ≤ length xs → take n (xs ++ ys) ≡ take n xs
take-append_le zero xs ys h = refl
take-append_le (suc n) [] ys h = absurd (omega (arith, h))
take-append_le (suc n) (x ∷ xs) ys h = ap (◌∷◌ x) (take-append_le n xs ys (omega (arith, h)))

take-all_bytes : (n : ℕ) (xs : Bytes) → length xs ≤ n → take n xs ≡ xs
take-all_bytes zero [] h = refl
take-all_bytes (suc n) [] h = refl
take-all_bytes zero (x ∷ xs) h = absurd (omega (arith, h))
take-all_bytes (suc n) (x ∷ xs) h = ap (◌∷◌ x) (take-all_bytes n xs (omega (arith, h)))

-- The number of bytes that are copied, without the last one.
copied :
    (line : Bytes)
    → take ((if ltb 256 (length line + 1) then 256 else length line + 1) - 1) line ≡ take 255 line
copied line = elim (Bool-cases (ltb 256 (length line + 1))) [
  | inl e ↦ rw e refl
  | inr e ↦
      let short : length line ≤ 255 = omega (arith, ltb→le 256 (length line + 1) e) in
      let n : length line + 1 - 1 ≡ length line = omega arith in
      rw (e, n)
        (take-all_bytes (length line) line (omega arith) ∙ sym (take-all_bytes 255 line short))
]

-- Of a text and its NUL, the first 255 bytes and a NUL are kept.
copy_cmdline-take : (line : Bytes) → copy_cmdline (line ++ 0 ∷ []) ≡ take 255 line ++ 0 ∷ []
unfolding copy_cmdline
copy_cmdline-take line =
    let n = if ltb 256 (length line + 1) then 256 else length line + 1 in
    let some_bytes : (n == 0) ≡ false = ground arith in
    let inside : n - 1 ≤ length line = ground arith in
    rw (length-append line (0 ∷ [])) (
      if_false _ _ some_bytes
      ∙ ap (λ (xs : Bytes). xs ++ 0 ∷ [])
          (take-append_le (n - 1) line (0 ∷ []) inside ∙ copied line))

-- What is passed on to the new kernel: where the ramdisk is, and the command line.
pub record IsPassed (m : Machine) (info : KexecInfo) (r : RealMode) (line : Bytes) (b : Buffer)
    (info' : KexecInfo) (r' : RealMode) : Type 0 where
  pub placed : IsAdded m info b.address b.size (initrd_request r b.size) info' r'.initrd_start
  pub size : r'.initrd_size ≡ b.size
  pub cmdline : r'.cmdline ≡ take 255 line ++ 0 ∷ []

setup-cases :
    (m : Machine) (info info' : KexecInfo) (r r' : RealMode) (base offset : ℕ) (cmdline : Bytes)
    (b : Buffer)
    → setup_linux_bootloader_parameters m info r base offset cmdline (some b) ≡ returned (info', r')
    → (start : ℕ) × (add_buffer m info b.address b.size (initrd_request r b.size) highest
        ≡ returned (info', start))
      × (write_parameters r base offset cmdline start b.size ≡ r')
unfolding setup_linux_bootloader_parameters place_initrd
setup-cases m info info' r r' base offset cmdline b h =
    elim (Outcome-cases (add_buffer m info b.address b.size (initrd_request r b.size) highest)) [
      | inl ((i, start), e) ↦ (start, ground (arith, h, e), ground (arith, h, e))
      | inr (d, e) ↦ absurd (ground (arith, h, e))
    ]

-- Where `setup_linux_bootloader_parameters` returns with a ramdisk of a size other than 0, the ramdisk
-- has become a segment of its own, in RAM that no other segment uses and at or below the limit of the
-- kernel; the parameters give its address and its size; and the command line is the text that was
-- given, cut at 255 bytes, with a NUL behind it. The segments before lie in RAM and begin on a
-- page; the ranges of RAM are in order and end below 4G by more than the alignment, which is a power
-- of two; so is a page.
pub setup_linux_bootloader_parameters-IsPassed :
    (m : Machine) (info info' : KexecInfo) (r r' : RealMode) (base offset : ℕ) (line : Bytes)
    (b : Buffer)
    → IsServable m (initrd_request r b.size)
    → IsPaged m
    → All (IsPlaced m.memory_range) info.segment
    → All (λ s. IsMultiple m.page_size s.mem) info.segment
    → 0 < b.size
    → setup_linux_bootloader_parameters m info r base offset (line ++ 0 ∷ []) (some b)
      ≡ returned (info', r')
    → IsPassed m info r line b info' r'
unfolding write_parameters
setup_linux_bootloader_parameters-IsPassed m info info' r r' base offset line b ok p placed paged
      pos h =
    let (start, added, made) = setup-cases m info info' r r' base offset (line ++ 0 ∷ []) b h in
    rw (← made) (record {
      placed =
          add_buffer-IsAdded m info info' b.address b.size (initrd_request r b.size) highest start
            ok p placed paged pos added;
      size = refl;
      cmdline = copy_cmdline-take line;
    })
