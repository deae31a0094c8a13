-- ===== src/Sha256/Reference.antt =====
-- A description of SHA-256 that takes one byte after the other, and the loop of sha256_update over whole
-- blocks.
use monoimage.Prelude.{
  zeros, ℕ, zero, suc, ◌+◌, ◌-◌, ◌*◌, ◌/◌, ◌%◌, ◌<◌, ◌≡◌, refl, sym, ap, ◌∙◌, false, [], ◌∷◌, ◌++◌,
  append-nil, append_assoc, ltb, ◌==◌, if◌then◌else◌, Bytes, length, take, drop, length-append,
  take-append-drop, length-take, length-drop, arith, inl, inr, Bool-cases, ltb→lt, ltb→le,
}
use mathlib.Core.List.{foldl, foldl-append}
use monoimage.Sha256.{word, Working, initial, put_uint32, sha256_process, process_loop, put_state}

-- One more byte: a block that is whole is processed.
abbrev feed : Working × Bytes → ℕ → Working × Bytes
feed (s, p) b = let q = p ++ b ∷ [] in if length q == 64 then (sha256_process s q, []) else (s, q)

abbrev pub absorb : Working × Bytes → Bytes → Working × Bytes
absorb = foldl feed

-- The text with a bit that is set, zeros up to the next block but eight bytes, and its length in bits.
abbrev pub padded : Bytes → Bytes
padded text =
    let mark : Bytes = 0x80 ∷ zeros ((119 - length text % 64) % 64) in
    let bits : Bytes = put_uint32 (8 * length text / word) ++ put_uint32 (8 * length text % word) in
    text ++ (mark ++ bits)

-- The digest of a text by the description.
abbrev pub digest : Bytes → Bytes
digest text = put_state (absorb (initial, []) (padded text)).0

feed-whole :
    (s : Working) (p : Bytes) (b : ℕ)
    → length p ≡ 63
    → feed (s, p) b ≡ (sha256_process s (p ++ b ∷ []), [])
feed-whole s p b e = ground (arith, length-append p (b ∷ []), e)

feed-part : (s : Working) (p : Bytes) (b : ℕ) → length p < 63 → feed (s, p) b ≡ (s, p ++ b ∷ [])
feed-part s p b e = ground (arith, length-append p (b ∷ []), e)

pub absorb-short :
    (s : Working) (p input : Bytes)
    → length p + length input < 64
    → absorb (s, p) input ≡ (s, p ++ input)
absorb-short s p [] h = ap (λ q. (s, q)) (sym (append-nil p))
absorb-short s p (b ∷ input) h =
    ap (λ t. absorb t input) (feed-part s p b (omega (arith, h)))
    ∙ absorb-short s (p ++ b ∷ []) input (omega (arith, h, length-append p (b ∷ [])))
    ∙ ap (λ q. (s, q)) (append_assoc p (b ∷ []) input)

pub absorb-whole :
    (s : Working) (p input : Bytes)
    → length p < 64
    → length p + length input ≡ 64
    → absorb (s, p) input ≡ (sha256_process s (p ++ input), [])
absorb-whole s p [] h e = absurd (omega (arith, h, e))
absorb-whole s p (b ∷ []) h e = feed-whole s p b (omega (arith, e))
absorb-whole s p (b ∷ c ∷ input) h e =
    ap (λ t. absorb t (c ∷ input)) (feed-part s p b (omega (arith, e)))
    ∙ absorb-whole s (p ++ b ∷ []) (c ∷ input) (omega (arith, e, length-append p (b ∷ [])))
        (omega (arith, e, length-append p (b ∷ [])))
    ∙ ap (λ q. (sha256_process s q, [])) (append_assoc p (b ∷ []) (c ∷ input))

pub absorb-append :
    (t : Working × Bytes) (xs ys : Bytes) → absorb t (xs ++ ys) ≡ absorb (absorb t xs) ys
absorb-append t xs ys = foldl-append feed t xs ys

-- What is left over has the length that it must have.
pub length-absorb :
    (s : Working) (p input : Bytes)
    → length p < 64
    → length (absorb (s, p) input).1 ≡ (length p + length input) % 64
length-absorb s p [] h = omega (arith, h)
length-absorb s p (b ∷ input) h = elim (Bool-cases (ltb (length p) 63)) [
  | inl k ↦
      ap (λ t. length (absorb t input).1) (feed-part s p b (ltb→lt (length p) 63 k))
      ∙ length-absorb s (p ++ b ∷ []) input
          (omega (arith, ltb→lt (length p) 63 k, length-append p (b ∷ [])))
      ∙ omega (arith, length-append p (b ∷ []))
  | inr k ↦
      ap (λ t. length (absorb t input).1)
        (feed-whole s p b (omega (arith, h, ltb→le (length p) 63 k)))
      ∙ length-absorb (sha256_process s (p ++ b ∷ [])) [] input (omega arith)
      ∙ omega (arith, h, ltb→le (length p) 63 k)
]

-- The loop over whole blocks.
pub absorb-process_loop :
    (n : ℕ) (s : Working) (input : Bytes)
    → length input / 64 ≡ n
    → absorb (s, []) input ≡ process_loop n s input
unfolding process_loop
absorb-process_loop zero s input e = absorb-short s [] input (omega (arith, e))
absorb-process_loop (suc n) s input e =
    let long : ltb (length input) 64 ≡ false = ground (arith, e) in
    let first : length (take 64 input) ≡ 64 = omega (arith, e, length-take 64 input) in
    ap (absorb (s, [])) (sym (take-append-drop 64 input))
    ∙ absorb-append (s, []) (take 64 input) (drop 64 input)
    ∙ ap (λ t. absorb t (drop 64 input))
        (absorb-whole s [] (take 64 input) (omega arith) (omega (arith, first)))
    ∙ absorb-process_loop n (sha256_process s (take 64 input)) (drop 64 input)
        (omega (arith, e, length-drop 64 input))
    ∙ rw long refl
