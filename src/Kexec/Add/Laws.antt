-- ===== src/Kexec/Add/Laws.antt =====
-- The segment that `add_segment` appends.
use Prim.Native.Nat.{bit_and}
use monoimage.Prelude.{
  ℕ, ◌+◌, ◌-◌, ◌*◌, ◌/◌, ◌^◌, ◌%◌, ◌≤◌, ◌<◌, ◌≡◌, ◌≢◌, refl, ◌∙◌, sym, ap, true, ltb, [], ◌∷◌, ◌++◌,
  arith, if◌then◌else◌,
}
use native.Mathlib.Nat.{div-add-mod, mod-lt, one-le-pow}
use monoimage.Prelude.Bits.{bit_and-align, bit_and-ones}
use monoimage.Kexec.{word, KexecSegment, KexecInfo, Machine, returned}
use monoimage.Kexec.Range.{valid_memory_range, IsUsable, valid_memory_range-IsUsable}
use monoimage.Kexec.Hole.{mask_down}
use monoimage.Kexec.Hole.Place.{IsMultiple}
use monoimage.Kexec.Add.{round_to_page, last_byte, append_segment, add_segment}

-- The page size is a power of two of at most 32 bits.
pub record IsPaged (m : Machine) : Type 0 where
  pub bits : ℕ
  pub others : ℕ
  pub total : bits + others ≡ 32
  pub power : m.page_size ≡ 2 ^ bits

-- What `add_segment` appends.
pub record IsNew (m : Machine) (buf bufsz base memsz : ℕ) (s : KexecSegment) : Type 0 where
  pub at_base : (s.buf ≡ buf) × (s.mem ≡ base)
  pub contents : (s.bufsz ≤ bufsz) × (s.bufsz ≤ memsz)
  pub rounded : IsMultiple m.page_size s.memsz × (memsz ≤ s.memsz) × (s.memsz < memsz + m.page_size)
  pub page : IsMultiple m.page_size base
  pub ends : base + s.memsz ≤ word
  pub usable : IsUsable m base (base + s.memsz - 1)

round_to_page_bounds :
    (m : Machine) (memsz : ℕ)
    → IsPaged m
    → memsz + m.page_size ≤ word
    → IsMultiple m.page_size (round_to_page m memsz)
      × (memsz ≤ round_to_page m memsz)
      × (round_to_page m memsz < memsz + m.page_size)
unfolding round_to_page mask_down
round_to_page_bounds m memsz p h =
    let pos = one-le-pow p.bits 2 (omega arith) in
    let whole : (memsz + (m.page_size - 1)) % word ≡ memsz + (m.page_size - 1) =
      omega (arith, p.power, pos) in
    let (d, e, le, lt) =
      bit_and-align p.bits p.others (memsz + (2 ^ p.bits - 1)) p.total
        (omega (arith, p.power, pos)) in
    rw (whole, p.power, e) ((d, refl), omega arith, omega arith)

-- `base & (pagesize - 1)` is 0 only for a multiple of the page size.
pub page_test :
    (m : Machine) (base : ℕ)
    → IsPaged m
    → bit_and base (m.page_size - 1) ≡ 0
    → IsMultiple m.page_size base
page_test m base p h =
    let below : base % 2 ^ p.bits < 2 ^ p.bits = mod-lt base (one-le-pow p.bits 2 (omega arith)) in
    let parts : 2 ^ p.bits * (base / 2 ^ p.bits) + base % 2 ^ p.bits ≡ base =
      div-add-mod base (2 ^ p.bits) in
    let low = bit_and-ones p.bits (base / 2 ^ p.bits) (base % 2 ^ p.bits) below in
    let zero_low : base % 2 ^ p.bits ≡ 0 =
      sym low ∙ ap (λ t. bit_and t (2 ^ p.bits - 1)) parts ∙ (rw p.power at h) in
    (base / 2 ^ p.bits, rw p.power (omega arith))

valid_no_wrap :
    (m : Machine) (base size : ℕ)
    → 0 < size
    → base < word
    → size < word
    → valid_memory_range m base (last_byte base size) ≡ true
    → (base + size ≤ word) × IsUsable m base (base + size - 1)
unfolding last_byte
valid_no_wrap m base size pos hb hs h =
    let u = (valid_memory_range-IsUsable m base ((base + size + word - 1) % word)).0 h in
    let o = u.ordered in
    let fits : base + size ≤ word = omega arith in
    let same : (base + size + word - 1) % word ≡ base + size - 1 = omega arith in
    (fits, rw same at u)

abbrev pub new_segment : Machine → (buf bufsz base memsz : ℕ) → KexecSegment
new_segment m buf bufsz base memsz = record {
  buf = buf;
  bufsz = if ltb memsz bufsz then memsz else bufsz;
  mem = base;
  memsz = round_to_page m memsz;
}

pub add_segment-cases :
    (m : Machine) (info info' : KexecInfo) (buf bufsz base memsz : ℕ)
    → add_segment m info buf bufsz base memsz ≡ returned info'
    → memsz ≢ 0
    → (bit_and base (m.page_size - 1) ≡ 0)
      × (valid_memory_range m base (last_byte base (round_to_page m memsz)) ≡ true)
      × (append_segment info (new_segment m buf bufsz base memsz) ≡ info')
unfolding add_segment
add_segment-cases m info info' buf bufsz base memsz h ne =
    (ground arith, ground arith, ground arith)

-- Where `add_segment` returns for a size other than 0, it has appended one segment: at the base that
-- was given, which is a multiple of the page size, with the size rounded up to a page, at most the
-- given number of bytes to copy, and inside a usable range of memory.
pub add_segment-IsNew :
    (m : Machine) (info info' : KexecInfo) (buf bufsz base memsz : ℕ)
    → IsPaged m
    → base < word
    → memsz + m.page_size ≤ word
    → memsz ≢ 0
    → add_segment m info buf bufsz base memsz ≡ returned info'
    → (s : KexecSegment) × (info'.segment ≡ info.segment ++ s ∷ []) × IsNew m buf bufsz base memsz s
unfolding append_segment
add_segment-IsNew m info info' buf bufsz base memsz p hb hs ne h =
    let (page, valid, made) = add_segment-cases m info info' buf bufsz base memsz h ne in
    let size = round_to_page_bounds m memsz p hs in
    let (ends, usable) =
      valid_no_wrap m base (round_to_page m memsz) (omega arith) hb (omega arith) valid in
    (
      new_segment m buf bufsz base memsz,
      ap (λ i. i.segment) (sym made),
      record {
        at_base = (refl, refl);
        contents = ground arith;
        rounded = size;
        page = page_test m base p page;
        ends = ends;
        usable = usable;
      },
    )
