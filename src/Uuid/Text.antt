-- ===== src/Uuid/Text.antt =====
-- The whole text: its bytes in order, read back, and what `is_null_uuid` does to it.
use monoimage.Prelude.{
  ℕ, zero, suc, ◌/◌, ◌%◌, ◌^◌, ◌<◌, ◌≡◌, refl, ap, ◌∙◌, ◌↔◌, true, [], ◌∷◌, ◌++◌, Bytes, codes,
  get_or, All, arith, append_assoc,
}
use monoimage.Uuid.{
  null_loop, is_null_uuid, read_word, unpack_uuid, hex, hex_bytes, print_uuid, uuid_to_str,
  uuid2str,
}
use monoimage.Uuid.Laws.{word2, hex_word2, hex_word4, parse_uuid, parse_uuid-byte, parse_uuid-dash}

-- Sixteen bytes.
module _ (a b c d e f g h i j k l m n o p : ℕ) where
  abbrev pub sixteen : Bytes
  sixteen = a ∷ b ∷ c ∷ d ∷ e ∷ f ∷ g ∷ h ∷ i ∷ j ∷ k ∷ l ∷ m ∷ n ∷ o ∷ p ∷ []

  -- The bytes in hexadecimal, in groups of four, two, two, two and six.
  abbrev grouped : Bytes
  grouped =
      ((hex 2 a ++ hex 2 b) ++ hex 2 c)
      ++ hex 2 d
      ++ (codes "-"
          ++ ((hex 2 e ++ hex 2 f)
              ++ (codes "-"
                  ++ ((hex 2 g ++ hex 2 h)
                      ++ (codes "-"
                          ++ ((hex 2 i ++ hex 2 j)
                              ++ (codes "-" ++ hex_bytes (k ∷ l ∷ m ∷ n ∷ o ∷ p ∷ []))))))))

  module _
      (bytes : All
        (λ x. x < 256)
        (a ∷ b ∷ c ∷ d ∷ e ∷ f ∷ g ∷ h ∷ i ∷ j ∷ k ∷ l ∷ m ∷ n ∷ o ∷ p ∷ [])) where
    clock_high : read_word 0 (i ∷ j ∷ []) % 2 ^ 16 / 256 ≡ i
    clock_high = rw (word2 i j (omega arith) (omega arith)) (omega arith)

    clock_low : read_word 0 (i ∷ j ∷ []) % 2 ^ 16 % 256 ≡ j
    clock_low = rw (word2 i j (omega arith) (omega arith)) (omega arith)

    -- `uuid_to_str` prints the sixteen bytes in order, two digits for each, in five groups.
    uuid_to_str-grouped : uuid_to_str sixteen ≡ grouped
    unfolding uuid_to_str unpack_uuid print_uuid
    uuid_to_str-grouped = rw (
      hex_word4 a b c d (omega arith) (omega arith) (omega arith) (omega arith),
      hex_word2 e f (omega arith) (omega arith),
      hex_word2 g h (omega arith) (omega arith),
      clock_high,
      clock_low,
    )

    parse_uuid-grouped : parse_uuid grouped ≡ sixteen
    unfolding hex_bytes parse_uuid
    parse_uuid-grouped = simp append_assoc (
        rw (
          parse_uuid-byte a _ (omega arith),
          parse_uuid-byte b _ (omega arith),
          parse_uuid-byte c _ (omega arith),
          parse_uuid-byte d _ (omega arith),
          parse_uuid-dash e _ (omega arith),
          parse_uuid-byte f _ (omega arith),
          parse_uuid-dash g _ (omega arith),
          parse_uuid-byte h _ (omega arith),
          parse_uuid-dash i _ (omega arith),
          parse_uuid-byte j _ (omega arith),
          parse_uuid-dash k _ (omega arith),
          parse_uuid-byte l _ (omega arith),
          parse_uuid-byte m _ (omega arith),
          parse_uuid-byte n _ (omega arith),
          parse_uuid-byte o _ (omega arith),
          parse_uuid-byte p _ (omega arith),
        ))

    -- Reading the text back gives the sixteen bytes, so that different identifiers have different
    -- texts.
    pub parse_uuid-uuid_to_str : parse_uuid (uuid_to_str sixteen) ≡ sixteen
    parse_uuid-uuid_to_str = ap parse_uuid uuid_to_str-grouped ∙ parse_uuid-grouped

null_loop-zero : (rounds : ℕ) → null_loop rounds 0 ≡ true
unfolding null_loop
null_loop-zero zero = refl
null_loop-zero (suc rounds) = null_loop-zero rounds

-- The loop never moves to the next byte: an identifier is taken for the null one exactly when its
-- first byte is 0.
is_null_uuid_iff : (uu : Bytes) → (is_null_uuid uu ≡ true) ↔ (get_or uu 0 0 ≡ 0)
unfolding is_null_uuid
is_null_uuid_iff uu = ((λ h. ground arith), λ e. rw e (null_loop-zero 16))

-- And so every identifier that begins with the byte 0 is printed as `<none>`.
pub uuid2str-zero : (rest : Bytes) → uuid2str (0 ∷ rest) ≡ codes "<none>"
unfolding uuid2str
uuid2str-zero rest = refl
