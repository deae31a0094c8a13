-- ===== src/Sha256/Stream.antt =====
-- SHA-256 of a text in pieces.
use monoimage.Prelude.{
  ℕ, suc, ◌+◌, ◌-◌, ◌/◌, ◌%◌, ◌^◌, ◌<◌, ◌≡◌, refl, sym, ap, ap₂, ◌∙◌, false, not, ◌&&◌, List, [],
  ◌∷◌, ◌++◌, append-nil, append_assoc, ltb, leb, ◌==◌, Bytes, length, take, length-append,
  length-take, All, arith, inl, inr, Bool-cases, ltb→lt, ltb→le, subst,
}
use Prim.Native.Nat.{bit_and}
use mathlib.Core.List.{flatten}
use monoimage.Sha256.Reference.{absorb, absorb-append}
use monoimage.Sha256.Buffer.{sha256_update-IsFed}
use monoimage.Sha256.{word, Context, initial, sha256_starts, count, add_input, sha256_update}

-- What a context holds after a text: the state and the bytes left over as the description has them.
pub record HasFed (ctx : Context) (text : Bytes) : Type 0 where
  pub total0 : ctx.total0 ≡ length text % word
  pub total1 : ctx.total1 ≡ length text / word
  pub state : ctx.state ≡ (absorb (initial, []) text).0
  pub rest : take (length text % 64) ctx.buffer ≡ (absorb (initial, []) text).1
  pub size : length ctx.buffer ≡ 64

-- The two words count the bytes of a text of less than 2^64 bytes.
count-total0 :
    (ctx : Context) (m n : ℕ) → ctx.total0 ≡ m % word → (count n ctx).total0 ≡ (m + n) % word
unfolding count
count-total0 ctx m n e = omega (arith, e)

count-total1 :
    (ctx : Context) (m n : ℕ)
    → ctx.total0 ≡ m % word
    → ctx.total1 ≡ m / word
    → n < word
    → m + n < 2 ^ 64
    → (count n ctx).total1 ≡ (m + n) / word
unfolding count
count-total1 ctx m n e e' small h = elim (Bool-cases (ltb ((ctx.total0 + n) % word) n)) [
  | inl wrapped ↦
      rw wrapped (omega (arith, ltb→lt ((ctx.total0 + n) % word) n wrapped, e, e', small, h))
  | inr fits ↦ rw fits (omega (arith, ltb→le ((ctx.total0 + n) % word) n fits, e, e', small, h))
]

-- Blocks that are processed do not change the count.
add_input-total :
    (ctx : Context) (left : ℕ) (input : Bytes)
    → ((add_input left input ctx).total0 ≡ ctx.total0)
      × ((add_input left input ctx).total1 ≡ ctx.total1)
unfolding add_input
add_input-total ctx left input =
    elim (Bool-cases (not (left == 0) && leb (64 - left) (length input))) [
      | inl fills ↦ rw fills (refl, refl)
      | inr keeps ↦ rw keeps (refl, refl)
    ]

sha256_update-total :
    (ctx : Context) (input : Bytes) (m : ℕ)
    → ctx.total0 ≡ m % word
    → ctx.total1 ≡ m / word
    → length input < word
    → m + length input < 2 ^ 64
    → ((sha256_update input ctx).total0 ≡ (m + length input) % word)
      × ((sha256_update input ctx).total1 ≡ (m + length input) / word)
unfolding sha256_update
sha256_update-total ctx [] m e e' small h = (omega (arith, e), omega (arith, e'))
sha256_update-total ctx (b ∷ input) m e e' small h =
    let more : (suc (length input) == 0) ≡ false = ground arith in
    let n = suc (length input) in
    let same = add_input-total (count n ctx) (bit_and ctx.total0 0x3F) (b ∷ input) in
    rw more (same.0 ∙ count-total0 ctx m n e, same.1 ∙ count-total1 ctx m n e e' small h)

-- `sha256_update` goes on with the text.
pub sha256_update-HasFed :
    (ctx : Context) (text input : Bytes)
    → HasFed ctx text
    → length input < word
    → length text + length input < 2 ^ 64
    → HasFed (sha256_update input ctx) (text ++ input)
sha256_update-HasFed ctx text input f small h =
    let left : ctx.total0 % 64 ≡ length text % 64 = omega (arith, f.total0) in
    let before : absorb (initial, []) text ≡ (ctx.state, take (ctx.total0 % 64) ctx.buffer) =
      sym (ap₂ (λ s p. (s, p)) f.state (ap (λ n. take n ctx.buffer) left ∙ f.rest)) in
    let after : absorb (initial, []) (text ++ input)
        ≡ absorb (ctx.state, take (ctx.total0 % 64) ctx.buffer) input =
      absorb-append (initial, []) text input ∙ ap (λ t. absorb t input) before in
    let fed = sha256_update-IsFed ctx input f.size in
    let index : length (text ++ input) % 64
        ≡ (length (take (ctx.total0 % 64) ctx.buffer) + length input) % 64 =
      omega
        (arith, left, f.size, length-append text input, length-take (ctx.total0 % 64) ctx.buffer) in
    let total = sha256_update-total ctx input (length text) f.total0 f.total1 small h in
    record {
      total0 = total.0 ∙ ap (λ n. n % word) (sym (length-append text input));
      total1 = total.1 ∙ ap (λ n. n / word) (sym (length-append text input));
      state = fed.0 ∙ ap (λ t. t.0) (sym after);
      rest =
          ap (λ n. take n (sha256_update input ctx).buffer) index
          ∙ fed.1
          ∙ ap (λ t. t.1) (sym after);
      size = fed.2;
    }

-- `sha256_update` for one piece after the other.
abbrev pub update_all : List Bytes → Context → Context
update_all [] ctx = ctx
update_all (piece ∷ pieces) ctx = update_all pieces (sha256_update piece ctx)

pub update_all-HasFed :
    (ctx : Context) (text : Bytes) (pieces : List Bytes)
    → HasFed ctx text
    → All (λ p. length p < word) pieces
    → length (text ++ flatten pieces) < 2 ^ 64
    → HasFed (update_all pieces ctx) (text ++ flatten pieces)
unfolding flatten
update_all-HasFed ctx text [] f small h = subst (HasFed ctx) (sym (append-nil text)) f
update_all-HasFed ctx text (p ∷ pieces) f small h =
    let along : (text ++ p) ++ flatten pieces ≡ text ++ (p ++ flatten pieces) =
      append_assoc text p (flatten pieces) in
    let short : length text + length p < 2 ^ 64 =
      omega
        (arith, h, length-append text (p ++ flatten pieces), length-append p (flatten pieces)) in
    subst (HasFed (update_all pieces (sha256_update p ctx))) along (
      update_all-HasFed (sha256_update p ctx) (text ++ p) pieces
        (sha256_update-HasFed ctx text p f small.0 short) small.1
        (subst (λ t. length t < 2 ^ 64) (sym along) h))

pub sha256_starts-HasFed : (buffer : Bytes) → length buffer ≡ 64 → HasFed (sha256_starts buffer) []
unfolding sha256_starts
sha256_starts-HasFed buffer size = record {
  total0 = refl;
  total1 = refl;
  state = refl;
  rest = refl;
  size = size;
}
