-- ===== src/Linuxrc/Walk.antt =====
-- The device that linuxrc's walk over /dev chooses.
use monoimage.Prelude.{
  ◌≡◌, refl, ap, sym, inl, inr, true, false, List, [], ◌∷◌, ◌++◌, ltb, Bytes, length, All, arith,
  Bool-cases,
}
use monoimage.CStr.{strcmp_eq}
use monoimage.CStr.Laws.{strcmp_eq→eq}
use monoimage.Linuxrc.{Kernel, buf_max, dev_path, ext2_uuid, found, walk}

-- A name that the walk passes: no block device, or one with another identifier.
abbrev pub Passed : Kernel → Bytes → Bytes → Type 0
Passed k imageuuid name =
    k.is_block (dev_path name) ≡ true → strcmp_eq imageuuid (ext2_uuid k (dev_path name)) ≡ false

-- The device is the first block device of the directory with the identifier.
pub record IsFirst (k : Kernel) (imageuuid : Bytes) (names : List Bytes) (dev : Bytes)
    : Type 0 where
  pub before : List Bytes
  pub name : Bytes
  pub after : List Bytes
  pub place : names ≡ before ++ name ∷ after
  pub path : dev ≡ dev_path name
  pub block : k.is_block dev ≡ true
  pub same_uuid : ext2_uuid k dev ≡ imageuuid
  pub passed : All (Passed k imageuuid) before

module _ (k : Kernel) (imageuuid : Bytes) where
  IsFirst-later :
      (name : Bytes) (names : List Bytes) (dev : Bytes)
      → Passed k imageuuid name
      → IsFirst k imageuuid names dev
      → IsFirst k imageuuid (name ∷ names) dev
  IsFirst-later name names dev p f = record {
    before = name ∷ f.before;
    name = f.name;
    after = f.after;
    place = ap (◌∷◌ name) f.place;
    path = f.path;
    block = f.block;
    same_uuid = f.same_uuid;
    passed = (p, f.passed);
  }

  -- The device that the walk over the names of /dev finds is the first block device among them that
  -- has the identifier of the image.
  walk-IsFirst :
      (names : List Bytes) (dev : Bytes)
      → walk k imageuuid names ≡ found dev
      → IsFirst k imageuuid names dev
  unfolding walk
  walk-IsFirst [] dev h = absurd (ground arith)
  walk-IsFirst (name ∷ names) dev h = elim (Bool-cases (ltb (length (dev_path name)) buf_max)) [
    | inr long ↦ absurd (ground arith)
    | inl fits ↦ elim (Bool-cases (k.is_block (dev_path name))) [
      | inr other ↦
          IsFirst-later name names dev (λ b. absurd (ground arith))
            (walk-IsFirst names dev (ground arith))
      | inl block ↦ elim (Bool-cases (strcmp_eq imageuuid (ext2_uuid k (dev_path name)))) [
        | inr differ ↦
            IsFirst-later name names dev (λ b. differ) (walk-IsFirst names dev (ground arith))
        | inl same ↦
            let e : dev ≡ dev_path name = ground arith in
            record {
              before = [];
              name = name;
              after = names;
              place = refl;
              path = e;
              block = rw e block;
              same_uuid = rw e (sym (strcmp_eq→eq imageuuid (ext2_uuid k (dev_path name)) same));
              passed = tt;
            }
      ]
    ]
  ]
