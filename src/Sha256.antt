-- ===== src/Sha256.antt =====
-- kexec-tools/util_lib/sha256.c: SHA-256 of a text that comes in pieces. The words have 32 bits, also
-- those of `total`, which are of the type size_t.
pub mod Reference
pub mod Buffer
pub mod Stream
pub mod Digest
use monoimage.Prelude.{
  ℕ, zeros, zero, suc, ◌+◌, ◌-◌, ◌*◌, ◌/◌, ◌%◌, ◌^◌, Bool, not, ◌&&◌, List, [], ◌∷◌, ◌++◌, ltb, leb,
  ◌==◌, if◌then◌else◌, Bytes, length, take, drop, get_or,
}
use Prim.Native.Nat.{bit_and, bit_or, bit_xor}

abbrev pub word : ℕ
word = 4294967296

-- The eight words of `state`, and the variables A to H.
pub record Working : Type 0 where
  pub a : ℕ
  pub b : ℕ
  pub c : ℕ
  pub d : ℕ
  pub e : ℕ
  pub f : ℕ
  pub g : ℕ
  pub h : ℕ

pub record Context : Type 0 where
  pub total0 : ℕ
  pub total1 : ℕ
  pub state : Working
  pub buffer : Bytes

abbrev pub initial : Working
initial = record {
  a = 0x6A09E667;
  b = 0xBB67AE85;
  c = 0x3C6EF372;
  d = 0xA54FF53A;
  e = 0x510E527F;
  f = 0x9B05688C;
  g = 0x1F83D9AB;
  h = 0x5BE0CD19;
}

unfoldable pub get_uint32 : (b0 b1 b2 b3 : ℕ) → ℕ
get_uint32 b0 b1 b2 b3 = bit_or (bit_or (bit_or (b0 * 2 ^ 24) (b1 * 2 ^ 16)) (b2 * 2 ^ 8)) b3

abbrev pub put_uint32 : ℕ → Bytes
put_uint32 n = n / 2 ^ 24 % 256 ∷ n / 2 ^ 16 % 256 ∷ n / 2 ^ 8 % 256 ∷ n % 256 ∷ []

-- The words W[0] to W[15] of a block.
unfoldable pub words : Bytes → List ℕ
unfolding get_uint32
words (b0 ∷ b1 ∷ b2 ∷ b3 ∷ rest) = get_uint32 b0 b1 b2 b3 ∷ words rest
words rest = []

-- SHR and ROTR
unfoldable pub shr : (x n : ℕ) → ℕ
shr x n = bit_and x 0xFFFFFFFF / 2 ^ n

unfoldable pub rotr : (x n : ℕ) → ℕ
unfolding shr
rotr x n = bit_or (shr x n) (x * 2 ^ (32 - n) % word)

-- S0 to S3, F0 and F1
unfoldable pub s0 : ℕ → ℕ
unfolding rotr shr
s0 x = bit_xor (bit_xor (rotr x 7) (rotr x 18)) (shr x 3)

unfoldable pub s1 : ℕ → ℕ
unfolding rotr shr
s1 x = bit_xor (bit_xor (rotr x 17) (rotr x 19)) (shr x 10)

unfoldable pub s2 : ℕ → ℕ
unfolding rotr
s2 x = bit_xor (bit_xor (rotr x 2) (rotr x 13)) (rotr x 22)

unfoldable pub s3 : ℕ → ℕ
unfolding rotr
s3 x = bit_xor (bit_xor (rotr x 6) (rotr x 11)) (rotr x 25)

unfoldable pub f0 : (x y z : ℕ) → ℕ
f0 x y z = bit_or (bit_and x y) (bit_and z (bit_or x y))

unfoldable pub f1 : (x y z : ℕ) → ℕ
f1 x y z = bit_xor z (bit_and x (bit_xor y z))

-- R(t), where `w` holds W[t - 1], W[t - 2] and so on.
unfoldable pub next_word : (w : List ℕ) → ℕ
unfolding s0 s1
next_word w = (s1 (get_or w 1 0) + get_or w 6 0 + s0 (get_or w 14 0) + get_or w 15 0) % word

-- The macro P. The names of the variables move on by one from each use to the next, so the new h is a.
unfoldable pub round : (k x : ℕ) → Working → Working
unfolding s2 s3 f0 f1
round k x v =
    let temp1 = (v.h + s3 v.e + f1 v.e v.f v.g + k + x) % word in
    let temp2 = (s2 v.a + f0 v.a v.b v.c) % word in
    record {
      a = (temp1 + temp2) % word;
      b = v.a;
      c = v.b;
      d = v.c;
      e = (v.d + temp1) % word;
      f = v.e;
      g = v.f;
      h = v.g;
    }

-- The constants of the 64 rounds.
abbrev pub constants : List ℕ
constants =
    0x428A2F98 ∷ 0x71374491 ∷ 0xB5C0FBCF ∷ 0xE9B5DBA5 ∷ 0x3956C25B ∷ 0x59F111F1 ∷ 0x923F82A4
    ∷ 0xAB1C5ED5 ∷ 0xD807AA98 ∷ 0x12835B01 ∷ 0x243185BE ∷ 0x550C7DC3 ∷ 0x72BE5D74 ∷ 0x80DEB1FE
    ∷ 0x9BDC06A7 ∷ 0xC19BF174 ∷ 0xE49B69C1 ∷ 0xEFBE4786 ∷ 0x0FC19DC6 ∷ 0x240CA1CC ∷ 0x2DE92C6F
    ∷ 0x4A7484AA ∷ 0x5CB0A9DC ∷ 0x76F988DA ∷ 0x983E5152 ∷ 0xA831C66D ∷ 0xB00327C8 ∷ 0xBF597FC7
    ∷ 0xC6E00BF3 ∷ 0xD5A79147 ∷ 0x06CA6351 ∷ 0x14292967 ∷ 0x27B70A85 ∷ 0x2E1B2138 ∷ 0x4D2C6DFC
    ∷ 0x53380D13 ∷ 0x650A7354 ∷ 0x766A0ABB ∷ 0x81C2C92E ∷ 0x92722C85 ∷ 0xA2BFE8A1 ∷ 0xA81A664B
    ∷ 0xC24B8B70 ∷ 0xC76C51A3 ∷ 0xD192E819 ∷ 0xD6990624 ∷ 0xF40E3585 ∷ 0x106AA070 ∷ 0x19A4C116
    ∷ 0x1E376C08 ∷ 0x2748774C ∷ 0x34B0BCB5 ∷ 0x391C0CB3 ∷ 0x4ED8AA4A ∷ 0x5B9CCA4F ∷ 0x682E6FF3
    ∷ 0x748F82EE ∷ 0x78A5636F ∷ 0x84C87814 ∷ 0x8CC70208 ∷ 0x90BEFFFA ∷ 0xA4506CEB ∷ 0xBEF9A3F7
    ∷ 0xC67178F2 ∷ []

-- The rounds for the constants `ks`: first with the words of the block, then with `R`. `w` holds the words
-- that were used, newest first.
unfoldable pub rounds : (ks block w : List ℕ) → Working → Working
unfolding next_word round
rounds [] block w v = v
rounds (k ∷ ks) (x ∷ block) w v = rounds ks block (x ∷ w) (round k x v)
rounds (k ∷ ks) [] w v = rounds ks [] (next_word w ∷ w) (round k (next_word w) v)

unfoldable pub add_words : Working → Working → Working
add_words s v = record {
  a = (s.a + v.a) % word;
  b = (s.b + v.b) % word;
  c = (s.c + v.c) % word;
  d = (s.d + v.d) % word;
  e = (s.e + v.e) % word;
  f = (s.f + v.f) % word;
  g = (s.g + v.g) % word;
  h = (s.h + v.h) % word;
}

-- Of the context only `state` is used.
unfoldable pub sha256_process : Working → (block : Bytes) → Working
unfolding rounds add_words words
sha256_process state block = add_words state (rounds constants (words block) [] state)

unfoldable pub sha256_starts : (buffer : Bytes) → Context
sha256_starts buffer = record { total0 = 0; total1 = 0; state = initial; buffer = buffer }

-- memcpy to `buffer + i`
unfoldable pub write_at : (i : ℕ) (bytes buffer : Bytes) → Bytes
write_at i bytes buffer = take i buffer ++ (bytes ++ drop (i + length bytes) buffer)

-- The two words that count the bytes.
unfoldable pub count : (n : ℕ) → Context → Context
count n ctx =
    let total0 = (ctx.total0 + n) % word in
    record ctx {
      total0 = total0;
      total1 = if ltb total0 n then (ctx.total1 + 1) % word else ctx.total1;
    }

-- The loop over whole blocks, and what is left of the input.
unfoldable pub process_loop : (fuel : ℕ) → Working → (input : Bytes) → Working × Bytes
process_loop zero state input = (state, input)
process_loop (suc fuel) state input =
    let rest = process_loop fuel (sha256_process state (take 64 input)) (drop 64 input) in
    if ltb (length input) 64 then (state, input) else rest

-- The last bytes of the input go to the buffer.
unfoldable pub keep_rest : (left : ℕ) (rest buffer : Bytes) → Bytes
unfolding write_at
keep_rest left rest buffer = if length rest == 0 then buffer else write_at left rest buffer

unfoldable pub update_blocks : (left : ℕ) (input : Bytes) → Context → Context
unfolding process_loop keep_rest
update_blocks left input ctx =
    let after = process_loop (length input / 64) ctx.state input in
    record ctx { state = after.0; buffer = keep_rest left after.1 ctx.buffer }

-- The first bytes of the input fill up the block that is in the buffer.
unfoldable pub fill_block : (left : ℕ) (input : Bytes) → Context → Context
unfolding write_at
fill_block left input ctx =
    let buffer = write_at left (take (64 - left) input) ctx.buffer in
    record ctx { state = sha256_process ctx.state buffer; buffer = buffer }

-- Where `left` bytes are in the buffer: is there a block to fill up?
unfoldable pub add_input : (left : ℕ) (input : Bytes) → Context → Context
unfolding update_blocks fill_block
add_input left input ctx =
    if not (left == 0) && leb (64 - left) (length input)
    then update_blocks 0 (drop (64 - left) input) (fill_block left input ctx)
    else update_blocks left input ctx

unfoldable pub sha256_update : (input : Bytes) → Context → Context
unfolding count add_input
sha256_update input ctx =
    if length input == 0
    then ctx
    else add_input (bit_and ctx.total0 0x3F) input (count (length input) ctx)

abbrev pub sha256_padding : Bytes
sha256_padding = 0x80 ∷ zeros 63

-- The digest, from `state`
unfoldable pub put_state : Working → Bytes
put_state s =
    put_uint32 s.a
    ++ (put_uint32 s.b
        ++ (put_uint32 s.c
            ++ (put_uint32 s.d
                ++ (put_uint32 s.e ++ (put_uint32 s.f ++ (put_uint32 s.g ++ put_uint32 s.h))))))

-- The length of the text in bits, as eight bytes.
unfoldable pub msglen : Context → Bytes
msglen ctx =
    put_uint32 (bit_or (ctx.total0 / 2 ^ 29) (ctx.total1 * 2 ^ 3 % word))
    ++ put_uint32 (ctx.total0 * 2 ^ 3 % word)

unfoldable pub padn : Context → ℕ
padn ctx = let last = bit_and ctx.total0 0x3F in if ltb last 56 then 56 - last else 120 - last

unfoldable pub sha256_finish : Context → Bytes
unfolding put_state msglen padn sha256_update
sha256_finish ctx =
    let padded = sha256_update (take (padn ctx) sha256_padding) ctx in
    put_state (sha256_update (msglen ctx) padded).state
