-- ===== src/Kexec/Purgatory.antt =====
-- The digest of the segments: `update_purgatory` of kexec-tools/kexec/kexec.c writes it before the
-- system call, and `verify_sha256_digest` of kexec-tools/purgatory/purgatory.c compares it with the
-- memory before the new kernel is started. SHA-256, which both call for one piece after the other, is a
-- function of all these bytes.
pub mod Verified
use monoimage.Prelude.{
  ℕ, zeros, zero, suc, ◌+◌, ◌-◌, Bool, true, false, List, [], ◌∷◌, ◌++◌, ltb, ◌==◌, if◌then◌else◌,
  Bytes,
}
use monoimage.CStr.{strcmp_eq}
use monoimage.Kexec.{KexecSegment}

-- The byte at each address, and `n` bytes from an address on.
abbrev pub Memory : Type 0
Memory = ℕ → ℕ

unfoldable pub read_bytes : Memory → (start n : ℕ) → Bytes
read_bytes memory start zero = []
read_bytes memory start (suc n) = memory start ∷ read_bytes memory (start + 1) n

-- The loop over `nullsz`, with pieces of at most 256 bytes.
unfoldable pub null_loop : (fuel nullsz : ℕ) → Bytes
null_loop zero nullsz = []
null_loop (suc fuel) nullsz =
    let bytes = if ltb 256 nullsz then 256 else nullsz in
    let rest = null_loop fuel (nullsz - bytes) in if nullsz == 0 then [] else zeros bytes ++ rest

-- What is digested for a segment, whose `bufsz` is at most its `memsz`.
unfoldable pub digested : Memory → KexecSegment → Bytes
unfolding read_bytes null_loop
digested process s =
    read_bytes process s.buf s.bufsz ++ null_loop (s.memsz - s.bufsz) (s.memsz - s.bufsz)

pub record Region : Type 0 where
  pub start : ℕ
  pub len : ℕ

abbrev pub sha256_regions_max : ℕ
sha256_regions_max = 8

-- The regions and the bytes that are digested, or the array of regions was overrun.
pub data Hashed : Type 0 where
  hashed : (regions : List Region) (bytes : Bytes) → Hashed
  overrun : Hashed

unfoldable pub add_region : Region → Bytes → Hashed → Hashed
add_region r bytes overrun = overrun
add_region r bytes (hashed regions rest) = hashed (r ∷ regions) (bytes ++ rest)

-- The loop over the segments, with `j` as the number of regions; the purgatory is left out.
unfoldable pub hash_loop : Memory → (rel_addr : ℕ) → List KexecSegment → (j : ℕ) → Hashed
unfolding digested add_region
hash_loop process rel_addr [] j = hashed [] []
hash_loop process rel_addr (s ∷ segments) j =
    let rest = hash_loop process rel_addr segments in
    let added : Hashed =
      if ltb j sha256_regions_max
      then add_region (record { start = s.mem; len = s.memsz }) (digested process s) (rest (j + 1))
      else overrun in
    if s.mem == rel_addr then rest j else added

-- The two symbols of the purgatory. The regions behind those in the list are empty.
pub record Symbols : Type 0 where
  pub sha256_regions : List Region
  pub sha256_digest : Bytes

pub data Updated : Type 0 where
  updated : Symbols → Updated
  undefined : Updated

abbrev pub Sha256 : Type 0
Sha256 = Bytes → Bytes

unfoldable pub update_purgatory : Sha256 → Memory → (rel_addr : ℕ) → List KexecSegment → Updated
unfolding hash_loop
update_purgatory sha256 process rel_addr segments = elim (hash_loop process rel_addr segments 0) [
  | hashed regions bytes ↦
      updated (record { sha256_regions = regions; sha256_digest = sha256 bytes })
  | overrun ↦ undefined
]

unfoldable pub region_bytes : Memory → List Region → Bytes
unfolding read_bytes
region_bytes memory [] = []
region_bytes memory (r ∷ regions) = read_bytes memory r.start r.len ++ region_bytes memory regions

-- Do the digests match? Otherwise the purgatory loops forever.
unfoldable pub verify_sha256_digest : Sha256 → Memory → Symbols → Bool
unfolding region_bytes
verify_sha256_digest sha256 memory s =
    strcmp_eq (sha256 (region_bytes memory s.sha256_regions)) s.sha256_digest
