-- ===== src/Monoboot/Main/Choice.antt =====
-- Which image the boot loader chooses, by what the last boot left in the configuration.
use monoimage.Prelude.{
  ◌≡◌, ◌≢◌, refl, true, false, Option, Bytes, codes, arith, Option-cases, inl, inr,
}
use monoimage.CStr.{has_prefix, strcmp_eq}
use monoimage.CStr.Laws.{strcmp_eq_iff, strcmp_eq_ne}
use monoimage.Confuse.{Confuse, StrOption, tryonce, default, fallback, lasttry, lastboot}
use monoimage.Monoboot.Commands.{asked_tag, boot_tag}
use monoimage.Monoboot.Main.{check_last}

not_yes : has_prefix (codes "yes") (codes "no") ≡ false
unfolding has_prefix
not_yes = refl

module _ {Cfg : Type 0} (c : Confuse Cfg) (cfg : Cfg) where
  -- What `check_last` does not change.
  check_last-getstr :
      (o : StrOption) → tryonce ≢ o → c.getstr (check_last c cfg).cfg o ≡ c.getstr cfg o
  unfolding check_last
  check_last-getstr o ne = ground (arith, c.getstr-setstr_ne cfg tryonce o (codes "no") ne)

  check_last-tryonce : c.getstr (check_last c cfg).cfg tryonce ≡ codes "no"
  unfolding check_last
  check_last-tryonce = ground (arith, c.getstr-setstr cfg tryonce (codes "no"))

  -- `check_last` turns `tryonce` off, and so the image that is asked for is the one that is booted:
  -- `bootonce` is never looked at.
  pub boot_tag-check_last :
      (arg : Option Bytes)
      → boot_tag c (check_last c cfg).cfg arg ≡ asked_tag c (check_last c cfg).cfg arg
  unfolding boot_tag
  boot_tag-check_last arg = elim (Option-cases (asked_tag c (check_last c cfg).cfg arg)) [
    | inl none_such ↦ rw (none_such, boot_tag)
    | inr (tag, e) ↦ rw (e, check_last-tryonce, not_yes, boot_tag)
  ]

  unset :
      (o : StrOption)
      → tryonce ≢ o
      → c.getstr (c.setstr cfg tryonce (codes "no")) o ≡ c.getstr cfg o
  unset o ne = c.getstr-setstr_ne cfg tryonce o (codes "no") ne

  -- The choice itself, by the two notes in the configuration.
  check_last-equal :
      c.getstr cfg lasttry ≡ c.getstr cfg lastboot
      → ((check_last c cfg).success ≡ true) × ((check_last c cfg).image ≡ c.getstr cfg default)
  unfolding check_last
  check_last-equal e =
      let same : strcmp_eq (c.getstr cfg lasttry) (c.getstr cfg lastboot) ≡ true =
        (strcmp_eq_iff (c.getstr cfg lasttry) (c.getstr cfg lastboot)).1 e in
      rw (unset lasttry (λ p. cc), unset lastboot (λ p. cc), same, unset default (λ p. cc))
        (refl, refl)

  check_last-differ :
      c.getstr cfg lasttry ≢ c.getstr cfg lastboot
      → ((check_last c cfg).success ≡ false) × ((check_last c cfg).image ≡ c.getstr cfg fallback)
  unfolding check_last
  check_last-differ ne =
      let other : strcmp_eq (c.getstr cfg lasttry) (c.getstr cfg lastboot) ≡ false =
        strcmp_eq_ne (c.getstr cfg lasttry) (c.getstr cfg lastboot) ne in
      rw (unset lasttry (λ p. cc), unset lastboot (λ p. cc), other, unset fallback (λ p. cc))
        (refl, refl)
