-- ===== src/Examples/Purgatory.antt =====
-- A process with a kernel of three bytes at the address 10, which is copied to 1000, and the purgatory.
use monoimage.Prelude.{◌+◌, ◌-◌, ◌≡◌, ◌≢◌, refl, true, [], ◌∷◌, All, arith, ltb, if◌then◌else◌}
use monoimage.Kexec.{KexecSegment}
use monoimage.Kexec.Purgatory.{
  Memory, Sha256, Symbols, updated, update_purgatory, verify_sha256_digest, read_bytes,
}
use monoimage.Kexec.Purgatory.Verified.{Holds, verify_sha256_digest-update_purgatory}

abbrev body : KexecSegment
body = record { buf = 10; bufsz = 3; mem = 1000; memsz = 5 }

abbrev purgatory : KexecSegment
purgatory = record { buf = 50; bufsz = 2; mem = 2000; memsz = 4 }

abbrev process : Memory
process x = x + 7

abbrev memory : Memory
memory x = if ltb x 1003 then x - 983 else 0

-- Any function of the bytes serves.
abbrev sum_of : Sha256
sum_of [] = 0 ∷ []
sum_of (b ∷ bs) = b ∷ sum_of bs

body-Holds : Holds process memory body
unfolding read_bytes
body-Holds = refl

all-Hold : All (λ s. s.mem ≢ 2000 → Holds process memory s) (body ∷ purgatory ∷ [])
all-Hold = ((λ ne. body-Holds), ((λ ne. absurd (ne refl)), tt))

verify_sha256_digest-update_purgatory_example :
    (s : Symbols) × (update_purgatory sum_of process 2000 (body ∷ purgatory ∷ []) ≡ updated s)
    × (verify_sha256_digest sum_of memory s ≡ true)
verify_sha256_digest-update_purgatory_example =
    verify_sha256_digest-update_purgatory sum_of process memory 2000 (body ∷ purgatory ∷ [])
      (omega arith) all-Hold
