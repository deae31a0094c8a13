-- ===== src/Confuse.antt =====
-- The configuration in memory, as libconfuse keeps it. The library is not part of the repository:
-- its configuration type and functions are the fields of an interface, with the laws that its
-- documentation gives. The options are those of monoboot/mbconf.h.
use monoimage.Prelude.{ℕ, ◌≡◌, ◌≢◌, List, Bytes}

-- The options of the top level that hold a text and are read or set by the programs.
pub data StrOption : Type 0 where
  bootonce : StrOption
  tryonce : StrOption
  default : StrOption
  fallback : StrOption
  lasttry : StrOption
  lastboot : StrOption
  password : StrOption

-- A section `image`: its title, which is the tag, and its option.
pub record ImageSection : Type 0 where
  pub title : Bytes
  pub filename : Bytes

-- A section `network`: its title, which is the interface, and its options.
pub record NetworkSection : Type 0 where
  pub iface : Bytes
  pub address : Bytes
  pub gateway : Bytes

-- cfg_getstr, cfg_setstr, cfg_getint for `delay`, and cfg_size with cfg_getnsec for the sections.
pub record Confuse (Cfg : Type 0) : Type 0 where
  pub getstr : Cfg → StrOption → Bytes
  pub setstr : Cfg → StrOption → Bytes → Cfg
  pub delay : Cfg → ℕ
  pub images : Cfg → List ImageSection
  pub networks : Cfg → List NetworkSection
  pub getstr-setstr : (g : Cfg) (o : StrOption) (v : Bytes) → getstr (setstr g o v) o ≡ v
  pub getstr-setstr_ne :
      (g : Cfg) (o p : StrOption) (v : Bytes) → o ≢ p → getstr (setstr g o v) p ≡ getstr g p
  pub images-setstr : (g : Cfg) (o : StrOption) (v : Bytes) → images (setstr g o v) ≡ images g
