-- ===== src/Sha256/Buffer.antt =====
-- The buffer of SHA-256: what it holds after sha256_update is what was left over.
use monoimage.Prelude.{
  ℕ, zero, suc, ◌+◌, ◌-◌, ◌/◌, ◌%◌, ◌≤◌, ◌<◌, ◌≡◌, refl, sym, ap, ◌∙◌, true, false, not, ◌&&◌, [],
  ◌∷◌, ◌++◌, append-nil, append_assoc, leb, ◌==◌, Bytes, length, take, drop, length-append,
  take-append, drop-append, take-append-drop, length-take, length-drop, arith, inl, inr, Bool-cases,
}
use Prim.Native.Nat.{bit_and}
use monoimage.Prelude.Bits.{bit_and-ones}
use monoimage.Sha256.Reference.{
  absorb, absorb-short, absorb-whole, absorb-append, length-absorb, absorb-process_loop,
}
use monoimage.Sha256.{
  Working, Context, sha256_process, write_at, keep_rest, count, process_loop, update_blocks,
  fill_block, add_input, sha256_update,
}

write_at-take :
    (i : ℕ) (bytes buffer : Bytes)
    → i ≤ length buffer
    → take (i + length bytes) (write_at i bytes buffer) ≡ take i buffer ++ bytes
unfolding write_at
write_at-take i bytes buffer h =
    let front : length (take i buffer ++ bytes) ≡ i + length bytes =
      omega (arith, h, length-append (take i buffer) bytes, length-take i buffer) in
    ap (take (i + length bytes)) (sym (append_assoc (take i buffer) bytes _))
    ∙ ap (λ n. take n ((take i buffer ++ bytes) ++ drop (i + length bytes) buffer)) (sym front)
    ∙ take-append (take i buffer ++ bytes) (drop (i + length bytes) buffer)

length-write_at :
    (i : ℕ) (bytes buffer : Bytes)
    → i + length bytes ≤ length buffer
    → length (write_at i bytes buffer) ≡ length buffer
unfolding write_at
length-write_at i bytes buffer h = omega (
  arith,
  h,
  length-append (take i buffer) (bytes ++ drop (i + length bytes) buffer),
  length-append bytes (drop (i + length bytes) buffer),
  length-take i buffer,
  length-drop (i + length bytes) buffer,
)

-- A write that reaches the end of the buffer.
write_at-end :
    (i : ℕ) (bytes buffer : Bytes)
    → i + length bytes ≡ length buffer
    → write_at i bytes buffer ≡ take i buffer ++ bytes
unfolding write_at
write_at-end i bytes buffer e =
    let none_left : drop (length buffer) buffer ≡ [] =
      ap (drop (length buffer)) (sym (append-nil buffer)) ∙ drop-append buffer [] in
    rw (e, none_left, append-nil) refl

keep_rest-take :
    (left : ℕ) (rest buffer : Bytes)
    → left + length rest ≤ length buffer
    → take (left + length rest) (keep_rest left rest buffer) ≡ take left buffer ++ rest
unfolding keep_rest
keep_rest-take left [] buffer h =
    ap (λ n. take n buffer) (omega arith) ∙ sym (append-nil (take left buffer))
keep_rest-take left (b ∷ rest) buffer h =
    let more : (suc (length rest) == 0) ≡ false = ground arith in
    rw more (write_at-take left (b ∷ rest) buffer (omega (arith, h)))

length-keep_rest :
    (left : ℕ) (rest buffer : Bytes)
    → left + length rest ≤ length buffer
    → length (keep_rest left rest buffer) ≡ length buffer
unfolding keep_rest
length-keep_rest left [] buffer h = refl
length-keep_rest left (b ∷ rest) buffer h =
    let more : (suc (length rest) == 0) ≡ false = ground arith in
    rw more (length-write_at left (b ∷ rest) buffer h)

-- What `ctx` holds after `input`, where the bytes `p` were left over before.
abbrev pub IsFed : Context → Working → (p input : Bytes) → Type 0
IsFed ctx s p input =
    (ctx.state ≡ (absorb (s, p) input).0)
    × (take ((length p + length input) % 64) ctx.buffer ≡ (absorb (s, p) input).1)
    × (length ctx.buffer ≡ 64)

update_blocks-short :
    (ctx : Context) (left : ℕ) (input : Bytes)
    → length ctx.buffer ≡ 64
    → left + length input < 64
    → IsFed (update_blocks left input ctx) ctx.state (take left ctx.buffer) input
unfolding update_blocks process_loop
update_blocks-short ctx left input size h =
    let no_block : length input / 64 ≡ 0 = omega (arith, h) in
    let kept : length (take left ctx.buffer) ≡ left =
      omega (arith, h, size, length-take left ctx.buffer) in
    let short = absorb-short ctx.state (take left ctx.buffer) input (omega (arith, h, kept)) in
    let count : (length (take left ctx.buffer) + length input) % 64 ≡ left + length input =
      omega (arith, h, kept) in
    rw (no_block, count, short)
      (
        refl,
        keep_rest-take left input ctx.buffer (omega (arith, h, size)),
        length-keep_rest left input ctx.buffer (omega (arith, h, size)) ∙ size,
      )

update_blocks-blocks :
    (ctx : Context) (input : Bytes)
    → length ctx.buffer ≡ 64
    → IsFed (update_blocks 0 input ctx) ctx.state [] input
unfolding update_blocks
update_blocks-blocks ctx input size =
    let after = process_loop (length input / 64) ctx.state input in
    let blocks : absorb (ctx.state, []) input ≡ after =
      absorb-process_loop (length input / 64) ctx.state input refl in
    let left_over : length after.1 ≡ (0 + length input) % 64 =
      ap (λ t. length t.1) (sym blocks) ∙ length-absorb ctx.state [] input (omega arith) in
    let room : 0 + length after.1 ≤ length ctx.buffer = omega (arith, size, left_over) in
    rw (blocks, sym left_over)
      (
        refl,
        ap (λ n. take n (keep_rest 0 after.1 ctx.buffer)) (omega arith)
            ∙ keep_rest-take 0 after.1 ctx.buffer room,
        length-keep_rest 0 after.1 ctx.buffer room ∙ size,
      )

pub low_bits : (x : ℕ) → bit_and x 0x3F ≡ x % 64
low_bits x = ap (λ y. bit_and y 0x3F) (omega arith) ∙ bit_and-ones 6 (x / 64) (x % 64) (omega arith)

-- The first bytes of the input fill up the block in the buffer, and the loop does the others.
fill_block-IsFed :
    (ctx : Context) (left : ℕ) (input : Bytes)
    → length ctx.buffer ≡ 64
    → left < 64
    → 64 - left ≤ length input
    → IsFed
        (update_blocks 0 (drop (64 - left) input) (fill_block left input ctx))
        ctx.state
        (take left ctx.buffer)
        input
unfolding fill_block
fill_block-IsFed ctx left input size small enough =
    let p = take left ctx.buffer in
    let front = take (64 - left) input in
    let back = drop (64 - left) input in
    let length-p : length p ≡ left = omega (arith, small, size, length-take left ctx.buffer) in
    let length-front : length front ≡ 64 - left =
      omega (arith, enough, length-take (64 - left) input) in
    let filled : write_at left front ctx.buffer ≡ p ++ front =
      write_at-end left front ctx.buffer (omega (arith, small, size, length-front)) in
    let whole : absorb (ctx.state, p) front
        ≡ (sha256_process ctx.state (write_at left front ctx.buffer), []) =
      absorb-whole ctx.state p front (omega (arith, small, length-p))
        (omega (arith, small, length-p, length-front))
      ∙ ap (λ b. (sha256_process ctx.state b, [])) (sym filled) in
    let split : absorb (ctx.state, p) input
        ≡ absorb (sha256_process ctx.state (write_at left front ctx.buffer), []) back =
      ap (absorb (ctx.state, p)) (sym (take-append-drop (64 - left) input))
      ∙ absorb-append (ctx.state, p) front back
      ∙ ap (λ t. absorb t back) whole in
    let index : (length p + length input) % 64 ≡ (0 + length back) % 64 =
      omega (arith, small, enough, length-p, length-drop (64 - left) input) in
    let size' : length (write_at left front ctx.buffer) ≡ 64 =
      ap length filled ∙ length-append p front ∙ omega (arith, small, length-p, length-front) in
    rw (split, index) (update_blocks-blocks (fill_block left input ctx) back size')

add_input-IsFed :
    (ctx : Context) (left : ℕ) (input : Bytes)
    → length ctx.buffer ≡ 64
    → left < 64
    → IsFed (add_input left input ctx) ctx.state (take left ctx.buffer) input
unfolding add_input
add_input-IsFed ctx zero input size small = update_blocks-blocks ctx input size
add_input-IsFed ctx (suc k) input size small = elim (Bool-cases (leb (64 - suc k) (length input))) [
  | inl e ↦
      let fills : (not (suc k == 0) && leb (64 - suc k) (length input)) ≡ true =
        ground (arith, e) in
      rw fills (fill_block-IsFed ctx (suc k) input size small (ground (arith, e)))
  | inr e ↦
      let keeps : (not (suc k == 0) && leb (64 - suc k) (length input)) ≡ false =
        ground (arith, e) in
      rw keeps (update_blocks-short ctx (suc k) input size (ground (arith, e, small)))
]

pub sha256_update-IsFed :
    (ctx : Context) (input : Bytes)
    → length ctx.buffer ≡ 64
    → IsFed (sha256_update input ctx) ctx.state (take (ctx.total0 % 64) ctx.buffer) input
unfolding sha256_update
sha256_update-IsFed ctx [] size =
    let kept : (length (take (ctx.total0 % 64) ctx.buffer) + 0) % 64 ≡ ctx.total0 % 64 =
      omega (arith, size, length-take (ctx.total0 % 64) ctx.buffer) in
    rw kept (refl, refl, size)
sha256_update-IsFed ctx (b ∷ input) size =
    let more : (suc (length input) == 0) ≡ false = ground arith in
    rw (more, low_bits)
      (add_input-IsFed (count (suc (length input)) ctx) (ctx.total0 % 64) (b ∷ input) size
        (omega arith))
