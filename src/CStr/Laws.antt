-- ===== src/CStr/Laws.antt =====
-- What the string functions compute.
use monoimage.Prelude.{
  ℕ, ◌≡◌, ◌≢◌, refl, ap, ◌↔◌, inl, inr, Bool, true, false, ◌&&◌, none, some, [], ◌∷◌, ◌++◌, ◌==◌,
  Bytes, length, All, arith, Bool-cases,
}
use monoimage.CStr.{strncmp_eq, strcmp_eq, has_prefix, strstr, span_until}

pub strncmp_eq-has_prefix : (p s : Bytes) → strncmp_eq p s (length p) ≡ has_prefix p s
unfolding strncmp_eq has_prefix
strncmp_eq-has_prefix [] s = refl
strncmp_eq-has_prefix (x ∷ p) [] = refl
strncmp_eq-has_prefix (x ∷ p) (y ∷ s) = ap (λ b. x == y && b) (strncmp_eq-has_prefix p s)

pub has_prefix-append : (p rest : Bytes) → has_prefix p (p ++ rest) ≡ true
unfolding has_prefix
has_prefix-append [] rest = refl
has_prefix-append (x ∷ p) rest = ground (arith, has_prefix-append p rest)

pub has_prefix→append : (p s : Bytes) → has_prefix p s ≡ true → (rest : Bytes) × (s ≡ p ++ rest)
unfolding has_prefix
has_prefix→append [] s h = (s, refl)
has_prefix→append (x ∷ p) [] h = absurd (ground arith)
has_prefix→append (x ∷ p) (y ∷ s) h =
    let (rest, e) = has_prefix→append p s (ground arith) in (rest, ground arith)

pub strcmp_eq_refl : (a : Bytes) → strcmp_eq a a ≡ true
unfolding strcmp_eq
strcmp_eq_refl [] = refl
strcmp_eq_refl (x ∷ xs) = ground (arith, strcmp_eq_refl xs)

pub strcmp_eq→eq : (a b : Bytes) → strcmp_eq a b ≡ true → a ≡ b
unfolding strcmp_eq
strcmp_eq→eq [] [] h = refl
strcmp_eq→eq [] (y ∷ ys) h = absurd (ground arith)
strcmp_eq→eq (x ∷ xs) [] h = absurd (ground arith)
strcmp_eq→eq (x ∷ xs) (y ∷ ys) h = ground (arith, strcmp_eq→eq xs ys)

pub strcmp_eq_iff : (a b : Bytes) → (strcmp_eq a b ≡ true) ↔ (a ≡ b)
strcmp_eq_iff a b = (strcmp_eq→eq a b, λ e. rw e (strcmp_eq_refl b))

pub strcmp_eq_ne : (a b : Bytes) → a ≢ b → strcmp_eq a b ≡ false
strcmp_eq_ne a b ne = elim (Bool-cases (strcmp_eq a b)) [
  | inl e ↦ absurd (ne (strcmp_eq→eq a b e))
  | inr e ↦ e
]

-- A text found is a part of the text searched.
pub strstr_sound :
    (s p t : Bytes) → strstr s p ≡ some t → (pre rest : Bytes) × (s ≡ pre ++ t) × (t ≡ p ++ rest)
unfolding strstr
strstr_sound [] p t h = elim (Bool-cases (has_prefix p [])) [
  | inl e ↦ let (rest, q) = has_prefix→append p [] e in ([], rest, ground arith, ground (arith, q))
  | inr e ↦ absurd (ground arith)
]
strstr_sound (y ∷ s) p t h = elim (Bool-cases (has_prefix p (y ∷ s))) [
  | inl e ↦
      let (rest, q) = has_prefix→append p (y ∷ s) e in ([], rest, ground arith, ground (arith, q))
  | inr e ↦
      let (pre, rest, q, r) = strstr_sound s p t (ground arith) in (y ∷ pre, rest, ground arith, r)
]

-- Up to the first byte that stops it.
pub span_until-append :
    (stop : ℕ → Bool) (v rest : Bytes) (c : ℕ)
    → All (λ x. stop x ≡ false) v
    → stop c ≡ true
    → span_until stop (v ++ c ∷ rest) ≡ (v, c ∷ rest)
unfolding span_until
span_until-append stop [] rest c h e = rw e
span_until-append stop (x ∷ v) rest c h e = rw (h.0, span_until-append stop v rest c h.1 e)

-- The first place: `p` does not stand at an earlier one.
abbrev pub NotBefore : Bytes → Bytes → Bytes → Type 0
NotBefore [] t p = Unit
NotBefore (x ∷ pre) t p = (has_prefix p (x ∷ pre ++ t) ≡ false) × NotBefore pre t p

pub strstr_first :
    (pre t p : Bytes) → NotBefore pre t p → has_prefix p t ≡ true → strstr (pre ++ t) p ≡ some t
unfolding strstr
strstr_first [] [] p n h = rw h
strstr_first [] (y ∷ t) p n h = rw h
strstr_first (x ∷ pre) t p n h = rw (n.0, strstr_first pre t p n.1 h)

-- A text with no byte `c` has no place for a word that begins with `c`.
pub strstr-absent : (s p : Bytes) (c : ℕ) → All (λ x. (c == x) ≡ false) s → strstr s (c ∷ p) ≡ none
unfolding strstr has_prefix
strstr-absent [] p c h = refl
strstr-absent (y ∷ s) p c h = rw (h.0, strstr-absent s p c h.1)

pub NotBefore-byte :
    (pre t p : Bytes) (c : ℕ) → All (λ x. (c == x) ≡ false) pre → NotBefore pre t (c ∷ p)
unfolding has_prefix
NotBefore-byte [] t p c h = tt
NotBefore-byte (x ∷ pre) t p c h = (rw h.0, NotBefore-byte pre t p c h.1)
