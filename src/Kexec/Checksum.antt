-- ===== src/Kexec/Checksum.antt =====
-- kexec-tools/util_lib/compute_ip_checksum.c, and the block of notes that `elf_boot_notes` of
-- kexec-tools/kexec/kexec-elf-boot.c builds with it. Words are little-endian.
pub mod Zero
use monoimage.Prelude.{
  ℕ, ◌+◌, ◌-◌, ◌*◌, ◌/◌, ◌%◌, ◌^◌, Bool, true, false, Option, none, some, List, [], ◌∷◌, ◌++◌, ltb,
  ◌==◌, if◌then◌else◌, Bytes, length,
}
use monoimage.Image.{le_bytes}

abbrev pub half_max : ℕ
half_max = 65535

-- The sum of one word more, with the carry added at the other end.
unfoldable pub add_word : (sum w : ℕ) → ℕ
add_word sum w = if ltb half_max (sum + w) then sum + w - half_max else sum + w

-- The loop over the words, and the last byte in a buffer of its own.
unfoldable pub sum_words : Bytes → (sum : ℕ) → ℕ
unfolding add_word
sum_words [] sum = sum
sum_words (a ∷ []) sum = add_word sum a
sum_words (a ∷ b ∷ rest) sum = sum_words rest (add_word sum (a + 256 * b))

-- `~sum & 0xFFFF`, for a sum of at most 65535
abbrev pub complement : ℕ → ℕ
complement sum = half_max - sum

-- `none`: at an odd address the length 0 wraps, and everything behind is read.
unfoldable pub compute_ip_checksum : (addr : ℕ) → Bytes → Option ℕ
unfolding sum_words
compute_ip_checksum addr [] = if addr % 2 == 0 then some (complement 0) else none
compute_ip_checksum addr (a ∷ rest) =
    if addr % 2 == 0
    then some (complement (sum_words (a ∷ rest) 0))
    else some (complement (sum_words rest (add_word 0 a)))

-- The sum of two checksums of at most 65535; behind an odd offset the bytes of the second one are
-- swapped.
unfoldable pub add_ip_checksums : (offset sum new : ℕ) → ℕ
unfolding add_word
add_ip_checksums offset sum new =
    let turned = complement new in
    let placed = if offset % 2 == 0 then turned else turned / 256 % 256 + turned * 256 % 65536 in
    complement (add_word (complement sum) placed)

-- ELF_BOOT_MAGIC, the size of the block, its checksum and the number of its records.
unfoldable pub bhdr : (b_size b_checksum : ℕ) → Bytes
unfolding le_bytes
bhdr b_size b_checksum =
    le_bytes 4 0x0E1FB007 ++ (le_bytes 4 b_size ++ (le_bytes 2 b_checksum ++ le_bytes 2 3))

-- EBN_COMMAND_LINE
unfoldable pub cmd_hdr : (n_descsz : ℕ) → Bytes
unfolding le_bytes
cmd_hdr n_descsz = le_bytes 4 0 ++ (le_bytes 4 n_descsz ++ le_bytes 4 4)

-- The notes on the boot loader are given, and so is what the memory of the block holds behind the
-- command line.
pub record Notes : Type 0 where
  pub loader_notes : Bytes
  pub cmdline : Bytes
  pub padding : Bytes

unfoldable pub note_bytes : Notes → (b_checksum : ℕ) → Bytes
unfolding bhdr cmd_hdr
note_bytes n b_checksum =
    bhdr (24 + length n.loader_notes + length n.cmdline + length n.padding) b_checksum
    ++ (n.loader_notes ++ (cmd_hdr (length n.cmdline) ++ (n.cmdline ++ n.padding)))

-- The block is first summed with the checksum 0.
unfoldable pub with_checksum : Notes → Option ℕ → Option Bytes
unfolding note_bytes
with_checksum n none = none
with_checksum n (some checksum) = some (note_bytes n checksum)

unfoldable pub boot_notes : (addr : ℕ) → Notes → Option Bytes
unfolding with_checksum note_bytes compute_ip_checksum
boot_notes addr n = with_checksum n (compute_ip_checksum addr (note_bytes n 0))
