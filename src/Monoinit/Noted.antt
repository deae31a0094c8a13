-- ===== src/Monoinit/Noted.antt =====
-- Which section monoinit takes for the image that has booted.
use monoimage.Prelude.{
  ◌≡◌, refl, ap, inl, inr, true, false, some, List, [], ◌∷◌, ◌++◌, Bytes, length, All, Bool-cases,
  arith,
}
use monoimage.CStr.{strncmp_eq, has_prefix}
use monoimage.Confuse.{ImageSection}
use monoimage.Monoinit.{booted_tag}

-- The section that is taken for the running image: the first one whose file name begins with it.
record IsTaken (images : List ImageSection) (image tag : Bytes) : Type 0 where
  pub before : List ImageSection
  pub taken : ImageSection
  pub after : List ImageSection
  pub place : images ≡ before ++ taken ∷ after
  pub its_tag : taken.title ≡ tag
  pub begins : has_prefix image taken.filename ≡ true
  pub others : All (λ i. has_prefix image i.filename ≡ false) before

-- strncmp(filename, image, strlen(image)) compares with the image as a prefix.
compared : (a p : Bytes) → strncmp_eq a p (length p) ≡ has_prefix p a
unfolding strncmp_eq has_prefix
compared a [] = refl
compared [] (y ∷ p) = refl
compared (x ∷ a) (y ∷ p) = ground (arith, compared a p)

-- The tag that monoinit notes is the title of the first section whose file name begins with the
-- running image.
booted_tag-IsTaken :
    (images : List ImageSection) (image tag : Bytes)
    → booted_tag images image ≡ some tag
    → IsTaken images image tag
unfolding booted_tag
booted_tag-IsTaken [] image tag h = absurd (ground arith)
booted_tag-IsTaken (i ∷ rest) image tag h = elim (Bool-cases (has_prefix image i.filename)) [
  | inl e ↦ record {
    before = [];
    taken = i;
    after = rest;
    place = refl;
    its_tag = ground (arith, compared i.filename image);
    begins = e;
    others = tt;
  }
  | inr e ↦
      let f = booted_tag-IsTaken rest image tag (ground (arith, compared i.filename image)) in
      record {
        before = i ∷ f.before;
        taken = f.taken;
        after = f.after;
        place = ap (◌∷◌ i) f.place;
        its_tag = f.its_tag;
        begins = f.begins;
        others = (e, f.others);
      }
]
