-- ===== src/Kexec/Purgatory/Verified.antt =====
-- The purgatory's test of the digest.
use monoimage.Prelude.{
  zeros, ℕ, zero, suc, ◌+◌, ◌-◌, ◌≤◌, ◌<◌, ◌≡◌, ◌≢◌, inl, inr, refl, sym, ap, ap₂, ◌∙◌, true, false,
  List, [], ◌∷◌, ◌++◌, ltb, ◌==◌, Bytes, length, All, arith, Bool-cases, if_false, if◌then◌else◌,
}
use monoimage.CStr.Laws.{strcmp_eq_refl}
use monoimage.Kexec.{KexecSegment}
use monoimage.Kexec.Purgatory.{
  Memory, read_bytes, null_loop, digested, Region, sha256_regions_max, Hashed, hashed, overrun,
  add_region, hash_loop, Symbols, updated, Sha256, update_purgatory, region_bytes,
  verify_sha256_digest,
}

zeros-add : (m n : ℕ) → zeros m ++ zeros n ≡ zeros (m + n)
zeros-add zero n = ap zeros (omega arith)
zeros-add (suc m) n =
    let same : suc (m + n) ≡ suc m + n = omega arith in ap (◌∷◌ 0) (zeros-add m n) ∙ ap zeros same

-- As many rounds as there are bytes are enough.
null_loop-zeros : (fuel n : ℕ) → n ≤ fuel → null_loop fuel n ≡ zeros n
unfolding null_loop
null_loop-zeros zero n h = let none_left : 0 ≡ n = omega (arith, h) in ap zeros none_left
null_loop-zeros (suc fuel) zero h = refl
null_loop-zeros (suc fuel) (suc n) h =
    let bytes = if ltb 256 (suc n) then 256 else suc n in
    let pos : 0 < bytes = ground arith in
    let most : bytes ≤ suc n = ground arith in
    let rest = null_loop-zeros fuel (suc n - bytes) (omega (arith, pos, h)) in
    let whole : bytes + (suc n - bytes) ≡ suc n = omega (arith, most) in
    let some_left : (suc n == 0) ≡ false = ground arith in
    if_false _ _ some_left
    ∙ ap (λ (xs : Bytes). zeros bytes ++ xs) rest
    ∙ zeros-add bytes (suc n - bytes)
    ∙ ap zeros whole

-- The memory holds the segment as kexec copies it: the bytes of its buffer, and zeros behind them.
abbrev pub Holds : (process memory : Memory) → KexecSegment → Type 0
Holds process memory s =
    read_bytes memory s.mem s.memsz ≡ read_bytes process s.buf s.bufsz ++ zeros (s.memsz - s.bufsz)

digested-Holds :
    (process memory : Memory) (s : KexecSegment)
    → Holds process memory s
    → read_bytes memory s.mem s.memsz ≡ digested process s
unfolding digested
digested-Holds process memory s h =
    h
    ∙ ap (λ (xs : Bytes). read_bytes process s.buf s.bufsz ++ xs)
        (sym (null_loop-zeros (s.memsz - s.bufsz) (s.memsz - s.bufsz) (omega arith)))

-- What the loop gives agrees with the memory.
abbrev Agrees : Memory → Hashed → Type 0
Agrees memory (hashed regions bytes) = region_bytes memory regions ≡ bytes
Agrees memory overrun = ⊥

add_region-Agrees :
    (memory : Memory) (r : Region) (bytes : Bytes) (h : Hashed)
    → read_bytes memory r.start r.len ≡ bytes
    → Agrees memory h
    → Agrees memory (add_region r bytes h)
unfolding add_region region_bytes
add_region-Agrees memory r bytes (hashed regions rest) e a = ap₂ ◌++◌ e a
add_region-Agrees memory r bytes overrun e a = absurd a

hash_loop-Agrees :
    (process memory : Memory) (rel_addr : ℕ) (segments : List KexecSegment) (j : ℕ)
    → j + length segments ≤ sha256_regions_max
    → All (λ s. s.mem ≢ rel_addr → Holds process memory s) segments
    → Agrees memory (hash_loop process rel_addr segments j)
unfolding hash_loop region_bytes
hash_loop-Agrees process memory rel_addr [] j small h = refl
hash_loop-Agrees process memory rel_addr (s ∷ segments) j small h =
    elim (Bool-cases (s.mem == rel_addr)) [
      | inl e ↦
          rw e (hash_loop-Agrees process memory rel_addr segments j (omega (arith, small)) h.1)
      | inr e ↦
          let room : ltb j sha256_regions_max ≡ true = ground (arith, small) in
          let other : s.mem ≢ rel_addr = λ same. ground (arith, e, same) in
          rw (e, room)
            (add_region-Agrees memory (record { start = s.mem; len = s.memsz }) (digested process s)
              (hash_loop process rel_addr segments (j + 1))
              (digested-Holds process memory s (h.0 other))
              (hash_loop-Agrees process memory rel_addr segments (j + 1) (omega (arith, small))
                h.1))
    ]

-- What `update_purgatory` writes passes `verify_sha256_digest`: for at most 8 segments the array of the
-- regions is large enough, and when the memory holds every segment but the purgatory's as the system
-- copies it, the digests match, whatever the function that computes them.
pub verify_sha256_digest-update_purgatory :
    (sha256 : Sha256) (process memory : Memory) (rel_addr : ℕ) (segments : List KexecSegment)
    → length segments ≤ sha256_regions_max
    → All (λ s. s.mem ≢ rel_addr → Holds process memory s) segments
    → (s : Symbols) × (update_purgatory sha256 process rel_addr segments ≡ updated s)
      × (verify_sha256_digest sha256 memory s ≡ true)
unfolding update_purgatory verify_sha256_digest
verify_sha256_digest-update_purgatory sha256 process memory rel_addr segments small h =
    verified (hash_loop process rel_addr segments 0) refl
      (hash_loop-Agrees process memory rel_addr segments 0 (omega (arith, small)) h)
  where
    verified :
        (r : Hashed)
        → hash_loop process rel_addr segments 0 ≡ r
        → Agrees memory r
        → (s : Symbols) × (update_purgatory sha256 process rel_addr segments ≡ updated s)
          × (verify_sha256_digest sha256 memory s ≡ true)
    verified (hashed regions bytes) e a = (
      record { sha256_regions = regions; sha256_digest = sha256 bytes },
      ground (arith, e),
      rw a (strcmp_eq_refl (sha256 bytes)),
    )
    verified overrun e a = absurd a
