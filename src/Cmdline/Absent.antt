-- ===== src/Cmdline/Absent.antt =====
-- Names that a line cannot hold, lines that fgets reads whole, and the bytes of `load_line`.
use monoimage.Prelude.{
  ℕ, zero, suc, ◌+◌, ◌<◌, ◌≡◌, refl, inl, inr, true, false, some, none, [], ◌∷◌, ◌++◌, ◌==◌, Bytes,
  codes, length, All-append, arith, Bool-cases, length-append,
}
use monoimage.CStr.{strstr, has_prefix}
use monoimage.Cmdline.{read_line, load_line}
use monoimage.Cmdline.Laws.{Lacks, lacks, lacks_of, newline}

-- A name whose second byte the line lacks is not found in it.
pub strstr-Lacks : (s p : Bytes) (a c : ℕ) → Lacks c s → strstr s (a ∷ c ∷ p) ≡ none
unfolding strstr has_prefix
strstr-Lacks [] p a c h = refl
strstr-Lacks (y ∷ []) p a c h = ground arith
strstr-Lacks (y ∷ z ∷ s) p a c h = rw (strstr-Lacks (z ∷ s) p a c h.1, h.1.0) (ground arith)

pub read_line-Lacks : (c n : ℕ) (s : Bytes) → Lacks c s → Lacks c (read_line n s)
unfolding read_line
read_line-Lacks c zero s h = tt
read_line-Lacks c (suc n) [] h = tt
read_line-Lacks c (suc n) (b ∷ s) h = elim (Bool-cases (b == 10)) [
  | inl e ↦ rw e (h.0, tt)
  | inr e ↦ rw e (h.0, read_line-Lacks c n s h.1)
]

-- A line that fits is read whole.
pub read_line-all :
    (n : ℕ) (s : Bytes)
    → Lacks newline s
    → length s < n
    → read_line n (s ++ newline ∷ []) ≡ s ++ newline ∷ []
unfolding read_line
read_line-all zero s h l = absurd (omega arith)
read_line-all (suc n) [] h l = refl
read_line-all (suc n) (b ∷ s) h l =
    let other : (b == 10) ≡ false = ground (arith, h.0) in
    rw (other, read_line-all n s h.1 (omega arith))

module _ (append image images_uuid config_uuid : Bytes) where
  pub load_line-Lacks :
      (c : ℕ)
      → lacks c (codes "root=/dev/loop0 ro ") ≡ true
      → lacks c (codes " F=") ≡ true
      → lacks c (codes " I=") ≡ true
      → lacks c (codes " C=") ≡ true
      → Lacks c append
      → Lacks c image
      → Lacks c images_uuid
      → Lacks c config_uuid
      → Lacks c (load_line (some append) image images_uuid config_uuid)
  unfolding load_line
  load_line-Lacks c h f k l a i u g =
      join (codes "root=/dev/loop0 ro ") _ (lacks_of c (codes "root=/dev/loop0 ro ") h) (
        join append _ a (
          join (codes " F=") _ (lacks_of c (codes " F=") f) (
            join image _ i (
              join (codes " I=") _ (lacks_of c (codes " I=") k) (
                join images_uuid _ u
                  (join (codes " C=") config_uuid (lacks_of c (codes " C=") l) g))))))
    where
      join : (xs ys : Bytes) → Lacks c xs → Lacks c ys → Lacks c (xs ++ ys)
      join xs ys = All-append (λ x. (c == x) ≡ false) xs ys

  pub length-load_line :
      length (load_line (some append) image images_uuid config_uuid)
      ≡ 28 + length append + length image + length images_uuid + length config_uuid
  unfolding load_line
  length-load_line =
      let tail = codes " C=" ++ config_uuid in
      let ids = codes " I=" ++ (images_uuid ++ tail) in
      omega (
        arith,
        length-append append (codes " F=" ++ (image ++ ids)),
        length-append image ids,
        length-append images_uuid tail,
      )
