-- ===== src/Kexec/Elf/Within.antt =====
-- The reads of the table of program headers, in the buffer or outside it.
use native.Mathlib.Decide.{dec_le}
use monoimage.Prelude.{
  ℕ, zero, suc, ◌+◌, ◌*◌, ◌%◌, ◌^◌, ◌≤◌, ◌<◌, ◌≡◌, ◌≢◌, ◌↔◌, inl, inr, refl, ◌∙◌, Bool, true, false,
  ltb, ◌==◌, if◌then◌else◌, arith, length, drop, Bool-cases, ltb→le,
}
use monoimage.Kexec.{word}
use monoimage.Kexec.Elf.{
  ElfFile, Parsed, parsed, rejected, faults, exits, endless, ◌>>=◌, MemPhdr, MemEhdr,
}
use monoimage.Kexec.Elf.Layout.{class32, class64, elf32_phdr, elf64_phdr, elfclass32, elfclass64}
use monoimage.Kexec.Elf.Tables.{
  fitting_phdr, build_mem_phdr, build_mem_elf32_phdr, build_mem_elf64_phdr, check_phdr, phdr_loop,
  build_mem_phdrs, is_class, phdr_size_of, fill_phdr,
}

fitting_phdr-ne-faults : (p : MemPhdr) → fitting_phdr p ≢ faults
unfolding fitting_phdr
fitting_phdr-ne-faults p h = ground arith

check_phdr-ne-faults : (f : ElfFile) (p : MemPhdr) → check_phdr f p ≢ faults
unfolding check_phdr
check_phdr-ne-faults f p h = ground arith

-- One read, in the buffer and outside it.
read-ne-faults :
    (n limit : ℕ) (p : MemPhdr)
    → limit ≤ n
    → (if ltb n limit then faults else fitting_phdr p) ≢ faults
read-ne-faults n limit p h e = ground (arith, fitting_phdr-ne-faults p)

build_mem_elf32_phdr-ne-faults :
    (f : ElfFile) (h : MemEhdr) (idx : ℕ)
    → h.e_phoff + idx * 32 + 32 ≤ length f.buf
    → build_mem_elf32_phdr f h idx ≢ faults
unfolding build_mem_elf32_phdr
build_mem_elf32_phdr-ne-faults f h idx within =
    read-ne-faults (length f.buf) (h.e_phoff + idx * 32 + 32)
      (fill_phdr class32 h.ei_data (elf32_phdr (drop (h.e_phoff + idx * 32) f.buf))) within

build_mem_elf64_phdr-ne-faults :
    (f : ElfFile) (h : MemEhdr) (idx : ℕ)
    → h.e_phoff + idx * 56 + 56 ≤ length f.buf
    → build_mem_elf64_phdr f h idx ≢ faults
unfolding build_mem_elf64_phdr
build_mem_elf64_phdr-ne-faults f h idx within =
    read-ne-faults (length f.buf) (h.e_phoff + idx * 56 + 56)
      (fill_phdr class64 h.ei_data (elf64_phdr (drop (h.e_phoff + idx * 56) f.buf))) within

choice-ne-faults :
    (b c : Bool) (x y : Parsed MemPhdr) (w : ℕ → Type 0)
    → (w 32 → x ≢ faults)
    → (w 56 → y ≢ faults)
    → w (if b then 32 else 56)
    → (if b then x else if c then y else rejected) ≢ faults
choice-ne-faults true c x y w hx hy at e = hx at e
choice-ne-faults false true x y w hx hy at e = hy at e
choice-ne-faults false false x y w hx hy at e = absurd (ground arith)

build_mem_phdr-ne-faults :
    (f : ElfFile) (h : MemEhdr) (idx : ℕ)
    → h.e_phoff + idx * phdr_size_of h.ei_class + phdr_size_of h.ei_class ≤ length f.buf
    → build_mem_phdr f h idx ≢ faults
unfolding build_mem_phdr phdr_size_of
build_mem_phdr-ne-faults f h idx =
    choice-ne-faults (h.ei_class == elfclass32) (h.ei_class == elfclass64)
      (build_mem_elf32_phdr f h idx) (build_mem_elf64_phdr f h idx)
      (λ size. h.e_phoff + idx * size + size ≤ length f.buf)
      (build_mem_elf32_phdr-ne-faults f h idx) (build_mem_elf64_phdr-ne-faults f h idx)

build_mem_phdr-faults :
    (f : ElfFile) (h : MemEhdr) (idx : ℕ)
    → is_class h.ei_class ≡ true
    → length f.buf < h.e_phoff + idx * phdr_size_of h.ei_class + phdr_size_of h.ei_class
    → build_mem_phdr f h idx ≡ faults
unfolding build_mem_phdr phdr_size_of
build_mem_phdr-faults f h idx c out = ground arith

bind-ne-faults {ℓ κ} :
    {A : Type ℓ} {B : Type κ} (m : Parsed A) (k : A → Parsed B)
    → m ≢ faults
    → ((a : A) → k a ≢ faults)
    → (m >>= k) ≢ faults
bind-ne-faults (parsed a) k hm hk e = hk a e
bind-ne-faults rejected k hm hk e = cc
bind-ne-faults faults k hm hk e = hm refl
bind-ne-faults (exits d) k hm hk e = cc
bind-ne-faults endless k hm hk e = cc

phdr_loop-ne-faults :
    (f : ElfFile) (h : MemEhdr) (left idx : ℕ)
    → h.e_phoff + (idx + left) * phdr_size_of h.ei_class ≤ length f.buf
    → phdr_loop f h left idx ≢ faults
unfolding phdr_loop
phdr_loop-ne-faults f h zero idx within = λ e. absurd (ground arith)
phdr_loop-ne-faults f h (suc left) idx within =
    bind-ne-faults (build_mem_phdr f h idx) _ (build_mem_phdr-ne-faults f h idx (grind arith)) λ p.
      bind-ne-faults (check_phdr f p) _ (check_phdr-ne-faults f p) λ q.
        bind-ne-faults (phdr_loop f h left (idx + 1)) _
          (phdr_loop-ne-faults f h left (idx + 1) (grind arith)) (λ rest e. absurd (ground arith))

-- The first read faults where the table begins outside.
phdr_loop-faults :
    (f : ElfFile) (h : MemEhdr) (left : ℕ)
    → is_class h.ei_class ≡ true
    → length f.buf < h.e_phoff
    → 0 < left
    → phdr_loop f h left 0 ≡ faults
unfolding phdr_loop
phdr_loop-faults f h zero c out pos = absurd (omega arith)
phdr_loop-faults f h (suc left) c out pos = rw (build_mem_phdr-faults f h 0 c (omega arith)) refl

size_bounds : (ei_class : ℕ) → (0 < phdr_size_of ei_class) × (phdr_size_of ei_class ≤ 56)
unfolding phdr_size_of
size_bounds ei_class = ground arith

build_mem_phdrs-of_class :
    (f : ElfFile) (h : MemEhdr)
    → is_class h.ei_class ≡ true
    → build_mem_phdrs f h ≡ (
        if ltb (length f.buf) ((h.e_phoff + phdr_size_of h.ei_class * h.e_phnum) % word)
        then rejected
        else phdr_loop f h h.e_phnum 0)
unfolding build_mem_phdrs
build_mem_phdrs-of_class f h c = rw c refl

table_size : (n size : ℕ) → n < 2 ^ 16 → size ≤ 56 → size * n ≤ 2 ^ 22
table_size n size hn hs = grind arith

some_left : (n size off : ℕ) → off < word → word ≤ off + size * n → 0 < n
some_left zero size off h k = absurd (omega arith)
some_left (suc n) size off h k = omega arith

-- `build_mem_phdrs` reads outside the buffer exactly when the end of the table, which is computed as
-- a word, has wrapped, and what is left of it is at most the length of the file.
pub build_mem_phdrs-faults_iff :
    (f : ElfFile) (h : MemEhdr)
    → is_class h.ei_class ≡ true
    → h.e_phoff < word
    → h.e_phnum < 2 ^ 16
    → length f.buf < 2 ^ 31
    → (build_mem_phdrs f h ≡ faults) ↔ (
        (word ≤ h.e_phoff + phdr_size_of h.ei_class * h.e_phnum)
        × ((h.e_phoff + phdr_size_of h.ei_class * h.e_phnum) % word ≤ length f.buf))
build_mem_phdrs-faults_iff f h c off num len =
    let size = phdr_size_of h.ei_class in
    let wide = table_size h.e_phnum size num (size_bounds h.ei_class).1 in
    let cut = build_mem_phdrs-of_class f h c in
    let whole : h.e_phoff + (0 + h.e_phnum) * size ≡ h.e_phoff + size * h.e_phnum = grind arith in
    (
      (λ e. elim (Bool-cases (ltb (length f.buf) ((h.e_phoff + size * h.e_phnum) % word))) [
        | inl out ↦ absurd (ground (arith, cut, e, out))
        | inr fits ↦ elim (dec_le word (h.e_phoff + size * h.e_phnum)) [
          | yes wraps ↦ (wraps, ltb→le _ _ fits)
          | no plain ↦ absurd (
              phdr_loop-ne-faults f h h.e_phnum 0 (omega (arith, whole, ltb→le _ _ fits))
                (ground (arith, cut, e, fits)))
        ]
      ]),
      λ t.
          let fits : ltb (length f.buf) ((h.e_phoff + size * h.e_phnum) % word) ≡ false =
            ground (arith, t.1) in
          cut
          ∙ rw fits (
              phdr_loop-faults f h h.e_phnum c (omega (arith, t.0))
                (some_left h.e_phnum size h.e_phoff off t.0)),
    )
