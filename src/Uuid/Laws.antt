-- ===== src/Uuid/Laws.antt =====
-- Words and bytes in hexadecimal, and a reader of the text of an identifier.
use monoimage.Prelude.{
  ℕ, suc, ◌+◌, ◌-◌, ◌*◌, ◌/◌, ◌%◌, ◌^◌, ◌<◌, ◌≡◌, ap, ◌∙◌, false, [], ◌∷◌, ◌++◌, ltb, ◌==◌,
  if◌then◌else◌, Bytes, codes, arith, append_assoc,
}
use monoimage.Prelude.Bits.{bit_or-add}
use monoimage.Uuid.{push_byte, read_word, hex_digit, hex}

push_byte_lem : (tmp b : ℕ) → tmp < 2 ^ 24 → b < 256 → push_byte tmp b ≡ tmp * 256 + b
unfolding push_byte
push_byte_lem tmp b h k =
    let whole : tmp * 256 % 2 ^ 32 ≡ 2 ^ 8 * tmp = omega arith in
    rw whole (omega (arith, bit_or-add 8 tmp b k))

hex_byte : (w n b : ℕ) → b < 256 → hex (suc (suc w)) (n * 256 + b) ≡ hex w n ++ hex 2 b
unfolding hex
hex_byte w n b h =
    let high : (n * 256 + b) / 16 / 16 ≡ n = omega arith in
    let mid : (n * 256 + b) / 16 % 16 ≡ b / 16 % 16 = omega arith in
    let low : (n * 256 + b) % 16 ≡ b % 16 = omega arith in
    rw (high, mid, low)
      (append_assoc (hex w n) (hex_digit (b / 16 % 16) ∷ []) (hex_digit (b % 16) ∷ []))

pub first_byte : (a : ℕ) → a < 256 → push_byte 0 a ≡ a
first_byte a h = push_byte_lem 0 a (omega arith) h ∙ omega arith

pub word2 : (a b : ℕ) → a < 256 → b < 256 → read_word 0 (a ∷ b ∷ []) ≡ a * 256 + b
unfolding read_word
word2 a b ha hb = rw (first_byte a ha) (push_byte_lem a b (omega arith) hb)

pub word4 :
    (a b c d : ℕ)
    → a < 256
    → b < 256
    → c < 256
    → d < 256
    → read_word 0 (a ∷ b ∷ c ∷ d ∷ []) ≡ ((a * 256 + b) * 256 + c) * 256 + d
unfolding read_word
word4 a b c d ha hb hc hd = rw (
  first_byte a ha,
  push_byte_lem a b (omega arith) hb,
  push_byte_lem (a * 256 + b) c (omega arith) hc,
  push_byte_lem ((a * 256 + b) * 256 + c) d (omega arith) hd,
)

pub hex_word2 :
    (a b : ℕ) → a < 256 → b < 256 → hex 4 (read_word 0 (a ∷ b ∷ []) % 2 ^ 16) ≡ hex 2 a ++ hex 2 b
hex_word2 a b ha hb =
    let fits : (a * 256 + b) % 2 ^ 16 ≡ a * 256 + b = omega arith in
    rw (word2 a b ha hb, fits) (hex_byte 2 a b hb)

pub hex_word4 :
    (a b c d : ℕ)
    → a < 256
    → b < 256
    → c < 256
    → d < 256
    → hex 8 (read_word 0 (a ∷ b ∷ c ∷ d ∷ [])) ≡ ((hex 2 a ++ hex 2 b) ++ hex 2 c) ++ hex 2 d
hex_word4 a b c d ha hb hc hd = rw (
  word4 a b c d ha hb hc hd,
  hex_byte 6 ((a * 256 + b) * 256 + c) d hd,
  hex_byte 4 (a * 256 + b) c hc,
  hex_byte 2 a b hb,
)

-- The value of a hexadecimal digit, and the bytes of a text with dashes between them.
abbrev digit_value : ℕ → ℕ
digit_value c = if ltb c 97 then c - 48 else c - 87

abbrev dash : ℕ
dash = 45

unfoldable pub parse_uuid : Bytes → Bytes
parse_uuid [] = []
parse_uuid (x ∷ []) = []
parse_uuid (x ∷ y ∷ rest) =
    let after_dash = parse_uuid (y ∷ rest) in
    let pair = (digit_value x * 16 + digit_value y) ∷ parse_uuid rest in
    if x == dash then after_dash else pair

digit_value-hex_digit : (n : ℕ) → n < 16 → digit_value (hex_digit n) ≡ n
digit_value-hex_digit n h = ground arith

hex_digit-ne-dash : (n : ℕ) → n < 16 → (hex_digit n == dash) ≡ false
hex_digit-ne-dash n h = ground arith

pub parse_uuid-byte :
    (b : ℕ) (rest : Bytes) → b < 256 → parse_uuid (hex 2 b ++ rest) ≡ b ∷ parse_uuid rest
unfolding parse_uuid hex
parse_uuid-byte b rest h =
    let high : b / 16 % 16 < 16 = omega arith in
    let low : b % 16 < 16 = omega arith in
    let whole : b / 16 % 16 * 16 + b % 16 ≡ b = omega arith in
    rw
      (
        hex_digit-ne-dash (b / 16 % 16) high,
        digit_value-hex_digit (b / 16 % 16) high,
        digit_value-hex_digit (b % 16) low,
      )
      (ap (λ t. t ∷ parse_uuid rest) whole)

pub parse_uuid-dash :
    (b : ℕ) (rest : Bytes)
    → b < 256
    → parse_uuid (codes "-" ++ (hex 2 b ++ rest)) ≡ b ∷ parse_uuid rest
unfolding parse_uuid hex
parse_uuid-dash b rest h = parse_uuid-byte b rest h
