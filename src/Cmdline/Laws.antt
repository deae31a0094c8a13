-- ===== src/Cmdline/Laws.antt =====
-- Which value `get_cmdline_var` finds.
use native.Mathlib.Nat.{suc-add}
use monoimage.Prelude.{
  ℕ, ◌+◌, ◌-◌, ◌≡◌, refl, ap, Bool, true, false, some, [], ◌∷◌, ◌++◌, ltb, ◌==◌, if◌then◌else◌,
  Bytes, length, drop, All, All-append, arith, length-append, take-append, append_assoc,
}
use monoimage.CStr.{strstr}
use monoimage.CStr.Laws.{NotBefore, NotBefore-byte, strstr_first, strstr-absent, has_prefix-append}
use monoimage.Cmdline.{value, end_offset, copy_value, var_at, get_cmdline_var}

abbrev pub Lacks : ℕ → Bytes → Type 0
Lacks c = All (λ x. (c == x) ≡ false)

abbrev pub lacks : ℕ → Bytes → Bool
lacks c [] = true
lacks c (x ∷ xs) = if c == x then false else lacks c xs

pub lacks_of : (c : ℕ) (xs : Bytes) → lacks c xs ≡ true → Lacks c xs
lacks_of c [] h = tt
lacks_of c (x ∷ xs) h = (ground arith, lacks_of c xs (ground arith))

abbrev pub space : ℕ
space = 32

abbrev pub newline : ℕ
newline = 10

pub find_byte :
    (pre rest : Bytes) (c : ℕ) → Lacks c pre → strstr (pre ++ c ∷ rest) (c ∷ []) ≡ some (c ∷ rest)
find_byte pre rest c h =
    strstr_first pre (c ∷ rest) (c ∷ []) (NotBefore-byte pre (c ∷ rest) [] c h)
      (has_prefix-append (c ∷ []) rest)

distance : (xs ys : Bytes) → length (xs ++ ys) - length ys ≡ length xs
distance xs ys = omega (arith, length-append xs ys)

end_offset-space :
    (word rest : Bytes) → Lacks space word → end_offset (word ++ space ∷ rest) ≡ some (length word)
unfolding end_offset
end_offset-space word rest h =
    rw (find_byte word rest space h, end_offset) (ap some (distance word (space ∷ rest)))

end_offset-newline :
    (word rest : Bytes)
    → Lacks space (word ++ newline ∷ rest)
    → Lacks newline word
    → end_offset (word ++ newline ∷ rest) ≡ some (length word)
unfolding end_offset
end_offset-newline word rest h g =
    rw
      (strstr-absent (word ++ newline ∷ rest) [] space h, find_byte word rest newline g, end_offset)
      (ap some (distance word (newline ∷ rest)))

drop_name :
    (var v rest : Bytes) (sep : ℕ) → drop (length var + 1) ((var ++ sep ∷ v) ++ rest) ≡ v ++ rest
drop_name [] v rest sep = refl
drop_name (x ∷ var) v rest sep = rw suc-add (drop_name var v rest sep)

-- A word `var`, a separator and a value, with the end of the word found behind the value.
var_at-value :
    (var : Bytes) (sep : ℕ) (v rest : Bytes)
    → end_offset ((var ++ sep ∷ v) ++ rest) ≡ some (length (var ++ sep ∷ v))
    → var_at ((var ++ sep ∷ v) ++ rest) var ≡ value v
unfolding var_at copy_value
var_at-value var sep v rest h =
    let whole = length-append (var ++ sep ∷ v) rest in
    let parts = length-append var (sep ∷ v) in
    let long : ltb (length ((var ++ sep ∷ v) ++ rest)) (length var + 1) ≡ false = ground arith in
    let after : ltb (length (var ++ sep ∷ v)) (length var + 1) ≡ false = ground arith in
    let left : length (var ++ sep ∷ v) - (length var + 1) ≡ length v = omega arith in
    rw (long, h)
      (rw (copy_value, after, left, drop_name var v rest sep) (ap value (take-append v rest)))

found_word :
    (pre word rest var : Bytes)
    → NotBefore pre ((var ++ word) ++ rest) var
    → strstr (pre ++ ((var ++ word) ++ rest)) var ≡ some ((var ++ word) ++ rest)
found_word pre word rest var n =
    strstr_first pre ((var ++ word) ++ rest) var n
      (rw (append_assoc var word rest) (has_prefix-append var (word ++ rest)))

-- The variable is found where its name first stands, and its value runs to the next space.
pub get_cmdline_var-value :
    (pre var v rest : Bytes) (sep : ℕ)
    → NotBefore pre ((var ++ sep ∷ v) ++ space ∷ rest) var
    → Lacks space (var ++ sep ∷ v)
    → get_cmdline_var (pre ++ ((var ++ sep ∷ v) ++ space ∷ rest)) var ≡ value v
unfolding get_cmdline_var
get_cmdline_var-value pre var v rest sep n s =
    rw (found_word pre (sep ∷ v) (space ∷ rest) var n, get_cmdline_var)
      (var_at-value var sep v (space ∷ rest) (end_offset-space (var ++ sep ∷ v) rest s))

-- At the end of the line the value runs to the newline.
pub get_cmdline_var-last :
    (pre var v : Bytes) (sep : ℕ)
    → NotBefore pre ((var ++ sep ∷ v) ++ newline ∷ []) var
    → Lacks space (var ++ sep ∷ v)
    → Lacks newline (var ++ sep ∷ v)
    → get_cmdline_var (pre ++ ((var ++ sep ∷ v) ++ newline ∷ [])) var ≡ value v
unfolding get_cmdline_var
get_cmdline_var-last pre var v sep n s l =
    let no_space =
      All-append (λ x. (space == x) ≡ false) (var ++ sep ∷ v) (newline ∷ []) s (refl, tt) in
    rw (found_word pre (sep ∷ v) (newline ∷ []) var n, get_cmdline_var)
      (var_at-value var sep v (newline ∷ []) (end_offset-newline (var ++ sep ∷ v) [] no_space l))
