-- ===== src/Examples/Sha256.antt =====
-- The digest of "abc", the first of the test vectors of sha256.c, whole and in pieces.
use mathlib.Core.List.{flatten}
use monoimage.Prelude.{zeros, ◌≡◌, refl, List, Bytes, codes, [], ◌∷◌, arith, length, ◌<◌, ◌^◌}
use monoimage.Sha256.{sha256_starts, sha256_process, sha256_update, sha256_finish}
use monoimage.Sha256.Reference.{digest}
use monoimage.Sha256.Stream.{update_all}
use monoimage.Sha256.Digest.{sha256_finish-update_all}

abbrev abc_digest : Bytes
abc_digest =
    186 ∷ 120 ∷ 22 ∷ 191 ∷ 143 ∷ 1 ∷ 207 ∷ 234 ∷ 65 ∷ 65 ∷ 64 ∷ 222 ∷ 93 ∷ 174 ∷ 34 ∷ 35 ∷ 176 ∷ 3
    ∷ 97 ∷ 163 ∷ 150 ∷ 23 ∷ 122 ∷ 156 ∷ 180 ∷ 16 ∷ 255 ∷ 97 ∷ 242 ∷ 0 ∷ 21 ∷ 173 ∷ []

sha256_abc : sha256_finish (sha256_update (codes "abc") (sha256_starts (zeros 64))) ≡ abc_digest
unfolding sha256_starts sha256_process sha256_update sha256_finish
sha256_abc = refl

abbrev pieces : List Bytes
pieces = codes "a" ∷ [] ∷ codes "bc" ∷ []

short : length (flatten pieces) < 2 ^ 61
unfolding flatten
short = omega arith

sha256_finish-update_all_example :
    sha256_finish (update_all pieces (sha256_starts (zeros 64))) ≡ digest (flatten pieces)
sha256_finish-update_all_example =
    sha256_finish-update_all (zeros 64) pieces refl (omega arith, (omega arith, (omega arith, tt)))
      short
