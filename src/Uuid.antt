-- ===== src/Uuid.antt =====
-- The identifier of an ext2 filesystem as a text: linuxrc/linuxrc.c, of which utils/get-uuid.c and
-- kexec-tools/util_lib/ext2_uuid.c have copies. The 16 bytes are a list; reading past its end gives 0.
pub mod Laws
pub mod Text
use Prim.Native.Nat.{bit_or}
use monoimage.Prelude.{
  ℕ, zero, suc, ◌+◌, ◌*◌, ◌/◌, ◌%◌, ◌^◌, Bool, true, false, List, [], ◌∷◌, ◌++◌, ltb, ◌==◌,
  if◌then◌else◌, Bytes, codes, get_or, take, drop,
}

-- `struct uuid`
pub record UuidFields : Type 0 where
  pub time_low : ℕ
  pub time_mid : ℕ
  pub time_hi_and_version : ℕ
  pub clock_seq : ℕ
  pub node : Bytes

-- The loop of `is_null_uuid`: `i` counts 16 rounds, and `cp` stays at the first byte.
unfoldable pub null_loop : (rounds : ℕ) → (first : ℕ) → Bool
null_loop zero first = true
null_loop (suc rounds) first =
    let rest = null_loop rounds first in if first == 0 then rest else false

unfoldable pub is_null_uuid : Bytes → Bool
unfolding null_loop
is_null_uuid uu = null_loop 16 (get_or uu 0 0)

-- tmp = (tmp << 8) | *ptr++, with tmp an unsigned 32-bit word
unfoldable pub push_byte : ℕ → ℕ → ℕ
push_byte tmp b = bit_or (tmp * 256 % 2 ^ 32) b

-- A run of such reads.
unfoldable pub read_word : ℕ → Bytes → ℕ
read_word tmp [] = tmp
read_word tmp (b ∷ bs) = read_word (push_byte tmp b) bs

-- The 16-bit fields take the low half of the word.
unfoldable pub unpack_uuid : Bytes → UuidFields
unpack_uuid bytes = record {
  time_low = read_word 0 (take 4 bytes);
  time_mid = read_word 0 (take 2 (drop 4 bytes)) % 2 ^ 16;
  time_hi_and_version = read_word 0 (take 2 (drop 6 bytes)) % 2 ^ 16;
  clock_seq = read_word 0 (take 2 (drop 8 bytes)) % 2 ^ 16;
  node = take 6 (drop 10 bytes);
}

-- A digit of %x.
abbrev pub hex_digit : ℕ → ℕ
hex_digit n = if ltb n 10 then n + b'0' else n + 87

-- %0wx of a number below 16 ^ w
unfoldable pub hex : (width : ℕ) → ℕ → Bytes
hex zero n = []
hex (suc w) n = hex w (n / 16) ++ hex_digit (n % 16) ∷ []

unfoldable pub hex_bytes : Bytes → Bytes
hex_bytes [] = []
hex_bytes (b ∷ bs) = hex 2 b ++ hex_bytes bs

-- The text "%08x-%04x-%04x-%02x%02x-%02x%02x%02x%02x%02x%02x".
unfoldable pub print_uuid : UuidFields → Bytes
print_uuid u =
    hex 8 u.time_low
    ++ (codes "-"
        ++ (hex 4 u.time_mid
            ++ (codes "-"
                ++ (hex 4 u.time_hi_and_version
                    ++ (codes "-"
                        ++ ((hex 2 (u.clock_seq / 256) ++ hex 2 (u.clock_seq % 256))
                            ++ (codes "-" ++ hex_bytes u.node)))))))

unfoldable pub uuid_to_str : Bytes → Bytes
uuid_to_str uu = print_uuid (unpack_uuid uu)

unfoldable pub uuid2str : Bytes → Bytes
unfolding is_null_uuid uuid_to_str
uuid2str uu = if is_null_uuid uu then codes "<none>" else uuid_to_str uu
