-- ===== src/Sha256/Digest.antt =====
-- The padding that sha256_finish appends, and the digest of a text in pieces.
use monoimage.Prelude.{
  zeros, ℕ, zero, suc, ◌+◌, ◌-◌, ◌*◌, ◌/◌, ◌%◌, ◌^◌, ◌≤◌, ◌<◌, ◌≡◌, refl, ap, ap₂, ◌∙◌, List, [],
  ◌∷◌, ◌++◌, append_assoc, Bytes, length, take, length-append, length-take, All, arith,
}
use Prim.Native.Nat.{bit_or}
use monoimage.Prelude.Bits.{bit_or-digit, bit_or-zero_left}
use mathlib.Core.List.{flatten}
use monoimage.Sha256.Reference.{absorb, padded, digest}
use monoimage.Sha256.Buffer.{low_bits}
use monoimage.Sha256.Stream.{
  HasFed, update_all, sha256_update-HasFed, update_all-HasFed, sha256_starts-HasFed,
}
use monoimage.Sha256.{
  word, Context, initial, put_uint32, sha256_starts, sha256_update, sha256_padding, put_state,
  msglen, padn, sha256_finish,
}

bit_or-even : (r m : ℕ) → bit_or r (2 * m) ≡ 2 * bit_or (r / 2) m + r % 2
bit_or-even r m =
    let half : 2 * m / 2 ≡ m = omega arith in bit_or-digit r (2 * m) ∙ rw half (omega arith)

-- Where the three low bits of the other word are clear, `|` with less than 8 is addition.
bit_or-low : (r q : ℕ) → r < 8 → bit_or r (2 * (2 * (2 * q))) ≡ 8 * q + r
bit_or-low r q h =
    let none_left : r / 2 / 2 / 2 ≡ 0 = omega (arith, h) in
    rw (bit_or-even, bit_or-even, bit_or-even, none_left, bit_or-zero_left) (omega (arith, h))

-- The length that `sha256_finish` appends is that of the text, in bits.
msglen-HasFed :
    (ctx : Context) (text : Bytes)
    → HasFed ctx text
    → length text < 2 ^ 61
    → msglen ctx ≡ put_uint32 (8 * length text / word) ++ put_uint32 (8 * length text % word)
unfolding msglen
msglen-HasFed ctx text f h =
    let low : ctx.total0 * 2 ^ 3 % word ≡ 8 * length text % word = omega (arith, f.total0) in
    let shifted : ctx.total1 * 2 ^ 3 % word ≡ 2 * (2 * (2 * ctx.total1)) =
      omega (arith, f.total1, h) in
    let high : bit_or (ctx.total0 / 2 ^ 29) (ctx.total1 * 2 ^ 3 % word) ≡ 8 * length text / word =
      ap (bit_or (ctx.total0 / 2 ^ 29)) shifted
      ∙ bit_or-low (ctx.total0 / 2 ^ 29) ctx.total1 (omega (arith, f.total0))
      ∙ omega (arith, f.total0, f.total1) in
    ap₂ (λ a b. put_uint32 a ++ put_uint32 b) high low

take-zeros : (k n : ℕ) → k ≤ n → take k (zeros n) ≡ zeros k
take-zeros zero n h = refl
take-zeros (suc k) zero h = absurd (omega (arith, h))
take-zeros (suc k) (suc n) h = ap (◌∷◌ 0) (take-zeros k n (omega (arith, h)))

padn-HasFed :
    (ctx : Context) (text : Bytes)
    → HasFed ctx text
    → padn ctx ≡ suc ((119 - length text % 64) % 64)
unfolding padn
padn-HasFed ctx text f =
    let left : ctx.total0 % 64 ≡ length text % 64 = omega (arith, f.total0) in
    rw (low_bits, left) (ground arith)

-- The bytes of the padding, one bit that is set and zeros.
padding-HasFed :
    (ctx : Context) (text : Bytes)
    → HasFed ctx text
    → take (padn ctx) sha256_padding ≡ 0x80 ∷ zeros ((119 - length text % 64) % 64)
padding-HasFed ctx text f =
    ap (λ n. take n sha256_padding) (padn-HasFed ctx text f)
    ∙ ap (◌∷◌ 0x80) (take-zeros ((119 - length text % 64) % 64) 63 (omega arith))

-- `sha256_finish` appends what the description appends.
sha256_finish-HasFed :
    (ctx : Context) (text : Bytes)
    → HasFed ctx text
    → length text < 2 ^ 61
    → sha256_finish ctx ≡ digest text
unfolding sha256_finish
sha256_finish-HasFed ctx text f h =
    let padding = take (padn ctx) sha256_padding in
    let few : length padding ≤ 64 =
      omega (arith, padn-HasFed ctx text f, length-take (padn ctx) sha256_padding) in
    let f₁ = sha256_update-HasFed ctx text padding f (omega (arith, few)) (omega (arith, few, h)) in
    let eight : length (msglen ctx) ≡ 8 = ap length (msglen-HasFed ctx text f h) in
    let f₂ =
      sha256_update-HasFed (sha256_update padding ctx) (text ++ padding) (msglen ctx) f₁
        (omega (arith, eight)) (omega (arith, eight, few, h, length-append text padding)) in
    let whole : (text ++ padding) ++ msglen ctx ≡ padded text =
      append_assoc text padding (msglen ctx)
      ∙ ap₂ (λ a b. text ++ (a ++ b)) (padding-HasFed ctx text f) (msglen-HasFed ctx text f h) in
    ap put_state (f₂.state ∙ ap (λ t. (absorb (initial, []) t).0) whole)

-- A text of less than 2^61 bytes that is given to `sha256_update` in pieces, each with a length of 32
-- bits, has the digest of the description, which takes it byte by byte: so the pieces do not matter,
-- nor what the buffer held before.
pub sha256_finish-update_all :
    (buffer : Bytes) (pieces : List Bytes)
    → length buffer ≡ 64
    → All (λ p. length p < word) pieces
    → length (flatten pieces) < 2 ^ 61
    → sha256_finish (update_all pieces (sha256_starts buffer)) ≡ digest (flatten pieces)
sha256_finish-update_all buffer pieces size small h =
    sha256_finish-HasFed (update_all pieces (sha256_starts buffer)) (flatten pieces)
      (update_all-HasFed (sha256_starts buffer) [] pieces (sha256_starts-HasFed buffer size) small
        (omega (arith, h)))
      h
