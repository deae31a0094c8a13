-- ===== src/Kexec/Elf/Exec/Segments.antt =====
-- The segments that the loading loop makes.
use monoimage.Prelude.{
  ℕ, zero, suc, ◌+◌, ◌%◌, ◌≤◌, ◌<◌, ◌≡◌, ◌≢◌, ◌⊎◌, inl, inr, refl, sym, ap, ◌∙◌, true, false, List,
  [], ◌∷◌, ◌++◌, ltb, ◌==◌, if◌then◌else◌, arith, All, append-nil, append_assoc, Bool-cases, ==_iff,
}
use monoimage.Kexec.{word, KexecSegment, KexecInfo, Machine, returned, Outcome-cases}
use monoimage.Kexec.Add.{add_segment}
use monoimage.Kexec.Add.Laws.{IsPaged, IsNew, add_segment-IsNew}
use monoimage.Kexec.Elf.{MemPhdr}
use monoimage.Kexec.Elf.Exec.{pt_load, load_loop}

abbrev pub copied : MemPhdr → ℕ
copied p = if ltb p.p_memsz p.p_filesz then p.p_memsz else p.p_filesz

-- Each header of a segment to load that is not empty has its segment, in the order of the headers.
pub data AreLoaded (m : Machine) : List MemPhdr → List KexecSegment → Type 0 where
  none_left : AreLoaded m [] []
  skipped :
      {p : MemPhdr} {ps : List MemPhdr} {ss : List KexecSegment}
      → (p.p_type ≢ pt_load) ⊎ (p.p_memsz ≡ 0)
      → AreLoaded m ps ss
      → AreLoaded m (p ∷ ps) ss
  loaded :
      {p : MemPhdr} {ps : List MemPhdr} {s : KexecSegment} {ss : List KexecSegment}
      → p.p_type ≡ pt_load
      → IsNew m p.p_data (copied p) p.p_paddr p.p_memsz s
      → AreLoaded m ps ss
      → AreLoaded m (p ∷ ps) (s ∷ ss)

-- The addresses are words, and the size can be rounded up to a page.
abbrev pub HasRoom : Machine → MemPhdr → Type 0
HasRoom m p = (p.p_paddr < word) × (p.p_memsz + m.page_size ≤ word)

dec_eq_zero : (n : ℕ) → (n ≡ 0) ⊎ (n ≢ 0)
dec_eq_zero zero = inl refl
dec_eq_zero (suc n) = inr (λ h. absurd (omega (arith, h)))

add_segment-empty :
    (m : Machine) (info : KexecInfo) (buf bufsz base memsz : ℕ)
    → memsz ≡ 0
    → add_segment m info buf bufsz base memsz ≡ returned info
unfolding add_segment
add_segment-empty m info buf bufsz base memsz h = ground arith

pub load_loop-other :
    (m : Machine) (base : ℕ) (info : KexecInfo) (p : MemPhdr) (ps : List MemPhdr)
    → (p.p_type == pt_load) ≡ false
    → load_loop m base info (p ∷ ps) ≡ load_loop m base info ps
unfolding load_loop
load_loop-other m base info p ps h = rw h refl

load_loop-load :
    (m : Machine) (base : ℕ) (info info' : KexecInfo) (p : MemPhdr) (ps : List MemPhdr)
    → (p.p_type == pt_load) ≡ true
    → add_segment m info p.p_data (copied p) ((p.p_paddr + base) % word) p.p_memsz ≡ returned info'
    → load_loop m base info (p ∷ ps) ≡ load_loop m base info' ps
unfolding load_loop
load_loop-load m base info info' p ps h a = rw (h, a) refl

pub load_loop-added :
    (m : Machine) (base : ℕ) (info : KexecInfo) (p : MemPhdr) (ps : List MemPhdr) {r : KexecInfo}
    → (p.p_type == pt_load) ≡ true
    → load_loop m base info (p ∷ ps) ≡ returned r
    → (info' : KexecInfo) × (add_segment m info p.p_data
          (copied p)
          ((p.p_paddr + base) % word)
          p.p_memsz
        ≡ returned info')
      × (load_loop m base info' ps ≡ returned r)
unfolding load_loop
load_loop-added m base info p ps h e =
    elim (Outcome-cases
      (add_segment m info p.p_data (copied p) ((p.p_paddr + base) % word) p.p_memsz)) [
        | inl (info', a) ↦ (info', a, (rw (h, a) at e))
        | inr (d, a) ↦ absurd (ground (arith, a, h, e))
      ]

load_one :
    (m : Machine) (info info₁ info' : KexecInfo) (p : MemPhdr) (ps : List MemPhdr)
    (new : List KexecSegment)
    → IsPaged m
    → HasRoom m p
    → p.p_type ≡ pt_load
    → add_segment m info p.p_data (copied p) ((p.p_paddr + 0) % word) p.p_memsz ≡ returned info₁
    → info'.segment ≡ info₁.segment ++ new
    → AreLoaded m ps new
    → (ss : List KexecSegment) × (info'.segment ≡ info.segment ++ ss) × AreLoaded m (p ∷ ps) ss
load_one m info info₁ info' p ps new paged room load added made l = elim (dec_eq_zero p.p_memsz) [
  | inl empty ↦
      let e =
        sym (add_segment-empty m info p.p_data (copied p) ((p.p_paddr + 0) % word) p.p_memsz empty)
        ∙ added in
      let same : info.segment ≡ info₁.segment = ground (arith, e) in
      (new, made ∙ ap (λ t. t ++ new) (sym same), skipped (inr empty) l)
  | inr some_size ↦
      let there : (p.p_paddr + 0) % word ≡ p.p_paddr = omega (arith, room.0) in
      let (s, e, is_new) =
        add_segment-IsNew m info info₁ p.p_data (copied p) p.p_paddr p.p_memsz paged room.0 room.1
          some_size (rw there at added) in
      (
        s ∷ new,
        made ∙ ap (λ t. t ++ new) e ∙ append_assoc info.segment (s ∷ []) new,
        loaded load is_new l,
      )
]

-- The loop appends the segments of the headers, and nothing else.
pub load_loop-AreLoaded :
    (m : Machine) (info info' : KexecInfo) (ps : List MemPhdr)
    → IsPaged m
    → All (HasRoom m) ps
    → load_loop m 0 info ps ≡ returned info'
    → (new : List KexecSegment) × (info'.segment ≡ info.segment ++ new) × AreLoaded m ps new
unfolding load_loop
load_loop-AreLoaded m info info' [] paged room h =
    ([], ground (arith, append-nil info.segment), none_left)
load_loop-AreLoaded m info info' (p ∷ ps) paged room h = elim (Bool-cases (p.p_type == pt_load)) [
  | inr other ↦
      let (new, made, l) =
        load_loop-AreLoaded m info info' ps paged room.1
          (sym (load_loop-other m 0 info p ps other) ∙ h) in
      (new, made, skipped (inl (ground arith)) l)
  | inl load ↦
      let (info₁, added, rest) = load_loop-added m 0 info p ps load h in
      let (new, made, l) = load_loop-AreLoaded m info₁ info' ps paged room.1 rest in
      load_one m info info₁ info' p ps new paged room.0 ((==_iff p.p_type pt_load).0 load) added
        made l
]
