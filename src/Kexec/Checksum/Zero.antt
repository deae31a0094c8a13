-- ===== src/Kexec/Checksum/Zero.antt =====
-- A block that carries its own checksum sums up to 0.
use monoimage.Prelude.{
  ℕ, zero, suc, ◌+◌, ◌-◌, ◌*◌, ◌/◌, ◌%◌, ◌≤◌, ◌<◌, ◌≡◌, ◌⊎◌, inl, inr, refl, sym, ap, ◌∙◌, subst,
  some, [], ◌∷◌, ◌++◌, ltb, Bytes, length, All, All-append, Bool-cases, arith, tests, ltb→lt,
  ltb→le,
}
use monoimage.Image.{le_bytes}
use monoimage.Kexec.Checksum.{
  add_word, sum_words, compute_ip_checksum, cmd_hdr, Notes, note_bytes, with_checksum, boot_notes,
}

abbrev pub AreBytes : Bytes → Type 0
AreBytes = All (λ b. b < 256)

-- The plain sum of the words.
total : Bytes → ℕ
total [] = 0
total (a ∷ []) = a
total (a ∷ b ∷ rest) = a + 256 * b + total rest

-- The sum with carries is the plain one up to a multiple of 65535, and 0 only for 0.
record Sums (plain sum : ℕ) : Type 0 where
  times : ℕ
  equal : sum + 65535 * times ≡ plain
  small : sum ≤ 65535
  positive : (plain ≡ 0) ⊎ (0 < sum)

sum_positive : (plain sum w : ℕ) → (plain ≡ 0) ⊎ (0 < sum) → (plain + w ≡ 0) ⊎ (0 < sum + w)
sum_positive plain sum zero (inl no_plain) = inl (omega (arith, no_plain))
sum_positive plain sum (suc w) (inl no_plain) = inr (omega arith)
sum_positive plain sum w (inr some_sum) = inr (omega (arith, some_sum))

Sums-add_word : (plain sum w : ℕ) → Sums plain sum → w ≤ 65535 → Sums (plain + w) (add_word sum w)
unfolding add_word
Sums-add_word plain sum w s hw = elim (Bool-cases (ltb 65535 (sum + w))) [
  | inl carry ↦ rw carry (record {
    times = suc s.times;
    equal = omega (tests, s.equal, ltb→lt 65535 (sum + w) carry);
    small = omega (arith, s.small, ltb→lt 65535 (sum + w) carry);
    positive = inr (omega (arith, ltb→lt 65535 (sum + w) carry));
  })
  | inr no_carry ↦ rw no_carry (record {
    times = s.times;
    equal = omega (arith, s.equal);
    small = omega (arith, ltb→le 65535 (sum + w) no_carry);
    positive = sum_positive plain sum w s.positive;
  })
]

Sums-sum_words :
    (bs : Bytes) (plain sum : ℕ)
    → AreBytes bs
    → Sums plain sum
    → Sums (plain + total bs) (sum_words bs sum)
unfolding sum_words total
Sums-sum_words [] plain sum h s = subst (λ t. Sums t sum) (omega arith) s
Sums-sum_words (a ∷ []) plain sum h s = Sums-add_word plain sum a s (omega (arith, h.0))
Sums-sum_words (a ∷ b ∷ rest) plain sum h s =
    subst (λ t. Sums t (sum_words rest (add_word sum (a + 256 * b)))) (omega arith)
      (Sums-sum_words rest (plain + (a + 256 * b)) (add_word sum (a + 256 * b)) h.1.1
        (Sums-add_word plain sum (a + 256 * b) s (omega (arith, h.0, h.1.0))))

total-Sums : (bs : Bytes) → AreBytes bs → Sums (total bs) (sum_words bs 0)
total-Sums bs h =
    subst (λ t. Sums t (sum_words bs 0)) (omega arith)
      (Sums-sum_words bs 0 0 h
        (record { times = 0; equal = refl; small = omega arith; positive = inl refl }))

-- The word at an even place counts with its value.
total-at :
    (front : Bytes) (half a b : ℕ) (back : Bytes)
    → length front ≡ 2 * half
    → total (front ++ a ∷ b ∷ back) ≡ total front + (a + 256 * b) + total back
unfolding total
total-at [] half a b back even = omega arith
total-at (x ∷ []) half a b back even = absurd (omega (arith, even))
total-at (x ∷ y ∷ front) zero a b back even = absurd (omega (arith, even))
total-at (x ∷ y ∷ front) (suc half) a b back even =
    omega (arith, total-at front half a b back (omega (arith, even)))

-- The sum of a block with the complement of its own sum.
full :
    (t s s' k k' : ℕ)
    → s + 65535 * k ≡ t
    → s ≤ 65535
    → s' + 65535 * k' ≡ t + (65535 - s)
    → s' ≤ 65535
    → 0 < s'
    → 65535 - s' ≡ 0
full t s s' k k' p hs q hs' pos = omega (arith, p, hs, q, hs', pos)

sum-full : (t s s' : ℕ) → Sums t s → Sums (t + (65535 - s)) s' → 65535 - s' ≡ 0
sum-full t s s' p q = elim q.positive [
  | inl no_sum ↦ absurd (omega (arith, no_sum, p.equal, p.small))
  | inr some_sum ↦ full t s s' p.times q.times p.equal p.small q.equal q.small some_sum
]

-- The block around its checksum.
front_of : Notes → Bytes
front_of n =
    le_bytes 4 0x0E1FB007
    ++ le_bytes 4 (24 + length n.loader_notes + length n.cmdline + length n.padding)

back_of : Notes → Bytes
back_of n =
    le_bytes 2 3 ++ (n.loader_notes ++ (cmd_hdr (length n.cmdline) ++ (n.cmdline ++ n.padding)))

note_bytes-split :
    (n : Notes) (c : ℕ) → note_bytes n c ≡ front_of n ++ (c % 256) ∷ (c / 256 % 256) ∷ back_of n
unfolding note_bytes front_of back_of
note_bytes-split n c = refl

back-AreBytes :
    (n : Notes)
    → AreBytes n.loader_notes
    → AreBytes n.cmdline
    → AreBytes n.padding
    → AreBytes (back_of n)
unfolding back_of cmd_hdr
back-AreBytes n h h' h'' =
    let tail = All-append (λ b. b < 256) n.cmdline n.padding h' h'' in
    let hdr : AreBytes (cmd_hdr (length n.cmdline)) = omega arith in
    (
      omega arith,
      (
        omega arith,
        All-append (λ b. b < 256) n.loader_notes
            (cmd_hdr (length n.cmdline) ++ (n.cmdline ++ n.padding)) h
            (All-append (λ b. b < 256) (cmd_hdr (length n.cmdline)) (n.cmdline ++ n.padding) hdr
              tail),
      ),
    )

note_bytes-AreBytes : (n : Notes) (c : ℕ) → AreBytes (back_of n) → AreBytes (note_bytes n c)
unfolding le_bytes
note_bytes-AreBytes n c h = subst AreBytes (sym (note_bytes-split n c)) (
    All-append (λ b. b < 256) (front_of n) ((c % 256) ∷ (c / 256 % 256) ∷ back_of n)
      (unfold front_of in (omega arith)) (omega arith, (omega arith, h)))

total-note_bytes :
    (n : Notes) (c : ℕ) → c ≤ 65535 → total (note_bytes n c) ≡ total (note_bytes n 0) + c
unfolding le_bytes
total-note_bytes n c small =
    let even : length (front_of n) ≡ 2 * 4 = unfold front_of in refl in
    let with_c =
      ap total (note_bytes-split n c)
      ∙ total-at (front_of n) 4 (c % 256) (c / 256 % 256) (back_of n) even in
    let with_0 = ap total (note_bytes-split n 0) ∙ total-at (front_of n) 4 0 0 (back_of n) even in
    omega (arith, with_c, with_0)

compute-even :
    (addr : ℕ) (bs : Bytes)
    → addr % 2 ≡ 0
    → compute_ip_checksum addr bs ≡ some (65535 - sum_words bs 0)
unfolding compute_ip_checksum
compute-even addr [] even = ground (arith, even)
compute-even addr (a ∷ bs) even = ground (arith, even)

-- What `elf_boot_notes` builds at an even address carries its checksum: the checksum of the whole block
-- is 0, whatever the notes and whatever the memory behind the command line holds.
pub boot_notes-zero :
    (addr : ℕ) (n : Notes)
    → addr % 2 ≡ 0
    → AreBytes n.loader_notes
    → AreBytes n.cmdline
    → AreBytes n.padding
    → (block : Bytes) × (boot_notes addr n ≡ some block) × (compute_ip_checksum addr block ≡ some 0)
unfolding boot_notes with_checksum
boot_notes-zero addr n even h h' h'' =
    let back = back-AreBytes n h h' h'' in
    let sum = sum_words (note_bytes n 0) 0 in
    let first = total-Sums (note_bytes n 0) (note_bytes-AreBytes n 0 back) in
    let checksum : ℕ = 65535 - sum in
    let block = note_bytes n checksum in
    let second =
      subst (λ t. Sums t (sum_words block 0)) (total-note_bytes n checksum (omega arith))
        (total-Sums block (note_bytes-AreBytes n checksum back)) in
    (
      block,
      ap (with_checksum n) (compute-even addr (note_bytes n 0) even),
      compute-even addr block even
          ∙ ap some (sum-full (total (note_bytes n 0)) sum (sum_words block 0) first second),
    )
