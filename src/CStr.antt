-- ===== src/CStr.antt =====
-- The functions of <string.h> that the programs call, on strings as lists of bytes without the
-- final NUL.
pub mod Laws
use monoimage.Prelude.{
  ℕ, zero, suc, ◌+◌, Bool, true, false, ◌&&◌, ◌||◌, Option, none, some, List, [], ◌∷◌, ◌++◌, ◌==◌,
  if◌then◌else◌, Bytes, length,
}

-- strncmp(a, b, n) == 0
unfoldable pub strncmp_eq : Bytes → Bytes → ℕ → Bool
strncmp_eq a b zero = true
strncmp_eq [] [] (suc n) = true
strncmp_eq [] (y ∷ ys) (suc n) = false
strncmp_eq (x ∷ xs) [] (suc n) = false
strncmp_eq (x ∷ xs) (y ∷ ys) (suc n) = x == y && strncmp_eq xs ys n

-- strcmp(a, b) == 0
unfoldable pub strcmp_eq : Bytes → Bytes → Bool
strcmp_eq [] [] = true
strcmp_eq [] (y ∷ ys) = false
strcmp_eq (x ∷ xs) [] = false
strcmp_eq (x ∷ xs) (y ∷ ys) = x == y && strcmp_eq xs ys

-- strncmp(p, s, strlen(p)) == 0: is `p` a prefix of `s`?
unfoldable pub has_prefix : Bytes → Bytes → Bool
has_prefix [] s = true
has_prefix (x ∷ p) [] = false
has_prefix (x ∷ p) (y ∷ s) = x == y && has_prefix p s

-- strstr(s, p): the suffix of `s` at the first place where `p` stands.
unfoldable pub strstr : Bytes → Bytes → Option Bytes
strstr [] p = if has_prefix p [] then some [] else none
strstr (y ∷ s) p = let rest = strstr s p in if has_prefix p (y ∷ s) then some (y ∷ s) else rest

-- strchr(s, c), and the text in front of it
unfoldable pub span_until : (ℕ → Bool) → Bytes → Bytes × Bytes
span_until stop [] = ([], [])
span_until stop (y ∷ s) =
    let (before, after) = span_until stop s in if stop y then ([], y ∷ s) else (y ∷ before, after)
