-- ===== src/Examples/Checksum.antt =====
-- A block with one byte of notes and the command line "q".
use monoimage.Prelude.{◌≡◌, refl, some, [], ◌∷◌, Bytes, arith}
use monoimage.Kexec.Checksum.{Notes, compute_ip_checksum, boot_notes}
use monoimage.Kexec.Checksum.Zero.{boot_notes-zero}

abbrev notes : Notes
notes = record { loader_notes = 7 ∷ []; cmdline = 113 ∷ 0 ∷ []; padding = 9 ∷ 255 ∷ [] }

boot_notes-zero_example :
    (block : Bytes) × (boot_notes 4096 notes ≡ some block)
    × (compute_ip_checksum 4096 block ≡ some 0)
boot_notes-zero_example = boot_notes-zero 4096 notes refl (omega arith) (omega arith) (omega arith)

-- The words 1 and 65535 sum up to 1 with the carry.
carries : compute_ip_checksum 0 (1 ∷ 0 ∷ 255 ∷ 255 ∷ []) ≡ some 65534
unfolding compute_ip_checksum
carries = refl
