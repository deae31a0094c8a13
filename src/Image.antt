-- ===== src/Image.antt =====
-- The monoimage file: its header in the three declarations of `struct monoimage_header`
-- (include/monoimage.h, kexec-tools/include/monoimage.h, linuxrc/monoimage.h), the writer
-- utils/makeimage.pl, and the reader in kexec-tools/kexec/arch/i386/kexec-monoimage.c. Words are
-- little-endian, and the structures have the padding of i386; `off_t` has 32 bits there.
pub mod Laws
pub mod Load
use monoimage.Prelude.{
  ℕ, zero, suc, ◌+◌, ◌-◌, ◌*◌, ◌/◌, ◌%◌, ◌^◌, Bool, true, false, not, ◌||◌, Option, none, some,
  List, [], ◌∷◌, ◌++◌, ltb, ◌==◌, if◌then◌else◌, Bytes, codes, length, take, drop, get_or,
}
use monoimage.CStr.{has_prefix}

pub record Header : Type 0 where
  pub magic : Bytes
  pub version : ℕ
  pub runfrom : ℕ
  pub fstype : ℕ
  pub kernel_offset : ℕ
  pub ramdisk_offset : ℕ
  pub rootfs_offset : ℕ

-- A little-endian word, and the bytes of one.
unfoldable pub le_word : Bytes → ℕ
le_word [] = 0
le_word (b ∷ bs) = b + 256 * le_word bs

unfoldable pub le_bytes : (width : ℕ) → ℕ → Bytes
le_bytes zero n = []
le_bytes (suc w) n = n % 256 ∷ le_bytes w (n / 256)

-- The word of `width` bytes at `offset`
unfoldable pub field_at : (offset width : ℕ) → Bytes → ℕ
unfolding le_word
field_at offset width buf = le_word (take width (drop offset buf))

-- include/monoimage.h: a 16-bit `kernel_offset`, with two bytes of padding behind it
unfoldable pub decode_shared : Bytes → Header
unfolding field_at
decode_shared buf = record {
  magic = take 4 buf;
  version = field_at 4 2 buf;
  runfrom = field_at 6 1 buf;
  fstype = field_at 7 1 buf;
  kernel_offset = field_at 8 2 buf;
  ramdisk_offset = field_at 12 4 buf;
  rootfs_offset = field_at 16 4 buf;
}

-- kexec-tools/include/monoimage.h: three offsets of 32 bits
unfoldable pub decode_kexec : Bytes → Header
unfolding field_at
decode_kexec buf = record {
  magic = take 4 buf;
  version = field_at 4 2 buf;
  runfrom = field_at 6 1 buf;
  fstype = field_at 7 1 buf;
  kernel_offset = field_at 8 4 buf;
  ramdisk_offset = field_at 12 4 buf;
  rootfs_offset = field_at 16 4 buf;
}

abbrev pub header_size : ℕ
header_size = 20

-- linuxrc/monoimage.h, which linuxrc.c includes: another structure, of 16 bytes
pub record OldHeader : Type 0 where
  pub magic : Bytes
  pub version : ℕ
  pub kernel_offset : ℕ
  pub ramdisk_offset : ℕ
  pub rootfs_offset : ℕ

abbrev pub old_header_size : ℕ
old_header_size = 16

unfoldable pub decode_linuxrc : Bytes → OldHeader
unfolding field_at
decode_linuxrc buf = record {
  magic = take 2 buf;
  version = field_at 2 2 buf;
  kernel_offset = field_at 4 4 buf;
  ramdisk_offset = field_at 8 4 buf;
  rootfs_offset = field_at 12 4 buf;
}

-- What makeimage.pl prints: the magic, pack("SCCIII", …), and the three files.
unfoldable pub make_header : (format runfrom kernel_size ramdisk_size : ℕ) → Bytes
unfolding le_bytes
make_header format runfrom kernel_size ramdisk_size =
    codes "MIMG"
    ++ (le_bytes 2 1
        ++ (le_bytes 1 format
            ++ (le_bytes 1 runfrom
                ++ (le_bytes 4 header_size
                    ++ (le_bytes 4 (header_size + kernel_size)
                        ++ le_bytes 4 (header_size + kernel_size + ramdisk_size))))))

unfoldable pub make_image : (format runfrom : ℕ) → (kernel ramdisk rootfs : Bytes) → Bytes
make_image format runfrom kernel ramdisk rootfs =
    make_header format runfrom (length kernel) (length ramdisk) ++ (kernel ++ (ramdisk ++ rootfs))

-- The return values -1, 0 and 1 of `monoimage_probe`.
pub data Probe : Type 0 where
  not_image : Probe
  other_version : Probe
  image : Probe

-- Two bytes of the magic are compared.
unfoldable pub monoimage_probe : Bytes → Probe
monoimage_probe buf =
    let h = decode_kexec buf in
    if ltb (length buf) header_size
    then not_image
    else if not (has_prefix (codes "MI") h.magic)
    then not_image
    else if h.version == 1
    then image
    else other_version

-- memcpy of `len` bytes from `offset`; none where it reads past the end of the buffer
unfoldable pub slice : Bytes → (offset len : ℕ) → Option Bytes
slice buf offset len =
    if ltb (length buf) (offset + len) then none else some (take len (drop offset buf))

-- b - a for an `off_t`, as the size that malloc and memcpy take
unfoldable pub distance : ℕ → ℕ → ℕ
distance a b = (b + 2 ^ 32 - a) % 2 ^ 32

-- The last part of `monoimage_load`: the copies of the ramdisk and of the kernel.
pub record Parts : Type 0 where
  pub kernel : Bytes
  pub ramdisk : Bytes

unfoldable pub parts_at : Bytes → (kernel_offset ramdisk_offset rootfs_offset : ℕ) → Option Parts
unfolding slice distance
parts_at buf kernel_offset ramdisk_offset rootfs_offset =
    elim (slice buf ramdisk_offset (distance ramdisk_offset rootfs_offset)) [
      | none ↦ none
      | some ramdisk ↦ elim (slice buf kernel_offset (distance kernel_offset ramdisk_offset)) [
        | none ↦ none
        | some kernel ↦ some (record { kernel = kernel; ramdisk = ramdisk })
      ]
    ]

unfoldable pub load_parts : Bytes → Option Parts
unfolding parts_at decode_kexec
load_parts buf =
    let h = decode_kexec buf in parts_at buf h.kernel_offset h.ramdisk_offset h.rootfs_offset
