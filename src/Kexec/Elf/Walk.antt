-- ===== src/Kexec/Elf/Walk.antt =====
-- Do the two walks over the notes end?
use monoimage.Prelude.{
  ℕ, zero, suc, ◌+◌, ◌-◌, ◌%◌, ◌^◌, ◌≤◌, ◌<◌, ◌≡◌, ◌≢◌, inl, inr, refl, ap, true, false, some, List,
  [], ◌∷◌, ltb, ◌==◌, if◌then◌else◌, arith, length, Bool-cases, Option-cases, ==_iff, lt→ltb,
  ltb→lt,
}
use monoimage.Kexec.{word}
use monoimage.Kexec.Elf.{
  ElfFile, Parsed, parsed, rejected, faults, exits, endless, ◌>>=◌, MemPhdr, MemShdr, MemEhdr,
}
use monoimage.Kexec.Elf.Notes.{
  NoteHeader, inside, round4, read_nhdr, note_size, count_notes, check_name, normalize_notes,
  note_phdr, find_in_phdrs, note_shdr, find_in_shdrs, walk_notes, build_mem_notes,
}

-- The addresses at which the notes from `start` to `end` stand, one behind the other.
pub data Reaches (f : ElfFile) (ei_data start end : ℕ) : ℕ → Type 0 where
  first : Reaches f ei_data start end start
  next :
      (note : ℕ) (hdr : NoteHeader)
      → Reaches f ei_data start end note
      → note < end
      → read_nhdr f ei_data note ≡ parsed hdr
      → Reaches f ei_data start end ((note + note_size hdr) % word)

-- The names and texts of these notes are short of 1G.
abbrev pub HasShortNotes : ElfFile → (ei_data start end : ℕ) → Type 0
HasShortNotes f ei_data start end =
    (note : ℕ) (hdr : NoteHeader)
    → Reaches f ei_data start end note
    → note < end
    → read_nhdr f ei_data note ≡ parsed hdr
    → (hdr.n_namesz < 2 ^ 30) × (hdr.n_descsz < 2 ^ 30)

-- Where the notes begin and end by the headers.
abbrev pub find_notes : MemEhdr → Parsed (ℕ × ℕ)
find_notes h = find_in_phdrs h >>= λ a. find_in_shdrs h a.0 a.1

pub read_nhdr-inside :
    (f : ElfFile) (ei_data note : ℕ) (hdr : NoteHeader)
    → read_nhdr f ei_data note ≡ parsed hdr
    → (f.address ≤ note) × (note + 12 ≤ f.address + length f.buf)
unfolding read_nhdr
read_nhdr-inside f ei_data note hdr h = ground arith

read_nhdr-ne-endless : (f : ElfFile) (ei_data note : ℕ) → read_nhdr f ei_data note ≢ endless
unfolding read_nhdr
read_nhdr-ne-endless f ei_data note h = ground arith

check_name-ne-endless : (f : ElfFile) (name n : ℕ) → check_name f name n ≢ endless
unfolding check_name
check_name-ne-endless f name n h = ground arith

bind-ne-endless {ℓ κ} :
    {A : Type ℓ} {B : Type κ} (m : Parsed A) (k : A → Parsed B)
    → m ≢ endless
    → ((a : A) → m ≡ parsed a → k a ≢ endless)
    → (m >>= k) ≢ endless
bind-ne-endless (parsed a) k hm hk e = hk a refl e
bind-ne-endless rejected k hm hk e = cc
bind-ne-endless faults k hm hk e = cc
bind-ne-endless (exits d) k hm hk e = cc
bind-ne-endless endless k hm hk e = hm refl

-- The next note stands behind this one.
note_size-moves :
    (f : ElfFile) (note : ℕ) (hdr : NoteHeader)
    → f.address + length f.buf < 2 ^ 31
    → note + 12 ≤ f.address + length f.buf
    → (hdr.n_namesz < 2 ^ 30) × (hdr.n_descsz < 2 ^ 30)
    → note + 12 ≤ (note + note_size hdr) % word
unfolding note_size
note_size-moves f note hdr low within short = omega (arith, short)

module _ (f : ElfFile) (ei_data start end : ℕ) (low : f.address + length f.buf < 2 ^ 31)
    (short : HasShortNotes f ei_data start end) where
  -- Fewer bytes are left behind the next note.
  next_note :
      (fuel note : ℕ) (hdr : NoteHeader)
      → Reaches f ei_data start end note
      → note < end
      → read_nhdr f ei_data note ≡ parsed hdr
      → f.address + length f.buf - note < suc fuel
      → f.address + length f.buf - (note + note_size hdr) % word < fuel
  next_note fuel note hdr there inside h enough =
      let within = read_nhdr-inside f ei_data note hdr h in
      omega (
        arith,
        enough,
        within,
        note_size-moves f note hdr low within.1 (short note hdr there inside h),
      )

  count_notes-ends :
      (fuel note : ℕ)
      → Reaches f ei_data start end note
      → f.address + length f.buf - note < fuel
      → count_notes fuel f ei_data note end ≢ endless
  unfolding count_notes
  count_notes-ends zero note there enough e = absurd (omega arith)
  count_notes-ends (suc fuel) note there enough e = elim (Bool-cases (ltb note end)) [
    | inr done ↦ absurd (ground (arith, (rw done at e)))
    | inl more ↦
        bind-ne-endless (read_nhdr f ei_data note) _ (read_nhdr-ne-endless f ei_data note)
          (λ hdr h.
            bind-ne-endless (count_notes fuel f ei_data ((note + note_size hdr) % word) end) _
              (count_notes-ends fuel ((note + note_size hdr) % word)
                (next note hdr there (ltb→lt note end more) h)
                (next_note fuel note hdr there (ltb→lt note end more) h enough))
              (λ n _ e'. absurd (ground arith)))
          (rw more at e)
  ]

  normalize_notes-ends :
      (fuel note : ℕ)
      → Reaches f ei_data start end note
      → f.address + length f.buf - note < fuel
      → normalize_notes fuel f ei_data note end ≢ endless
  unfolding normalize_notes
  normalize_notes-ends zero note there enough e = absurd (omega arith)
  normalize_notes-ends (suc fuel) note there enough e = elim (Bool-cases (ltb note end)) [
    | inr done ↦ absurd (ground (arith, (rw done at e)))
    | inl more ↦
        bind-ne-endless (read_nhdr f ei_data note) _ (read_nhdr-ne-endless f ei_data note)
          (λ hdr h.
            bind-ne-endless (check_name f ((note + 12) % word) hdr.n_namesz) _
              (check_name-ne-endless f ((note + 12) % word) hdr.n_namesz)
              λ name _.
                bind-ne-endless (normalize_notes fuel f ei_data ((note + note_size hdr) % word) end)
                  _
                  (normalize_notes-ends fuel ((note + note_size hdr) % word)
                    (next note hdr there (ltb→lt note end more) h)
                    (next_note fuel note hdr there (ltb→lt note end more) h enough))
                  (λ rest _ e'. absurd (ground arith)))
          (rw more at e)
  ]

  -- A start that is NULL is not walked from.
  walk_notes-ends :
      (fuel : ℕ)
      → f.address + length f.buf < fuel
      → (if start == 0 then parsed [] else walk_notes fuel f ei_data start end) ≢ endless
  unfolding walk_notes
  walk_notes-ends fuel enough e = elim (Bool-cases (start == 0)) [
    | inl null ↦ absurd (ground (arith, (rw null at e)))
    | inr some_start ↦
        bind-ne-endless (count_notes fuel f ei_data start end) _
          (count_notes-ends fuel start first (omega (arith, enough)))
          (λ n _. normalize_notes-ends fuel start first (omega (arith, enough)))
          (rw some_start at e)
  ]

find_in_phdrs-ne-endless : (h : MemEhdr) → find_in_phdrs h ≢ endless
unfolding find_in_phdrs
find_in_phdrs-ne-endless h e = ground arith

find_in_shdrs-ne-endless : (h : MemEhdr) (start end : ℕ) → find_in_shdrs h start end ≢ endless
unfolding find_in_shdrs
find_in_shdrs-ne-endless h start end e = ground arith

-- `build_mem_notes` ends: where the buffer lies below 2G, and the name and the text of each note that
-- stands in the first segment or section of notes, one behind the other, are short of 1G, one round for
-- each address up to the end of the buffer is enough for both walks.
pub build_mem_notes-ends :
    (fuel : ℕ) (f : ElfFile) (h : MemEhdr)
    → f.address + length f.buf < 2 ^ 31
    → ((start end : ℕ) → find_notes h ≡ parsed (start, end) → HasShortNotes f h.ei_data start end)
    → f.address + length f.buf < fuel
    → build_mem_notes fuel f h ≢ endless
unfolding build_mem_notes
build_mem_notes-ends fuel f h low short enough =
    bind-ne-endless (find_in_phdrs h) _ (find_in_phdrs-ne-endless h) λ a found.
      bind-ne-endless (find_in_shdrs h a.0 a.1) _ (find_in_shdrs-ne-endless h a.0 a.1) λ b found'.
        walk_notes-ends f h.ei_data b.0 b.1 low (short b.0 b.1 (rw (found, found') refl)) fuel
          enough

-- A first note whose size wraps to 0.
abbrev pub IsStill : NoteHeader → Type 0
IsStill hdr = (12 + round4 hdr.n_namesz + round4 hdr.n_descsz) % word ≡ 0

count_notes-still :
    (f : ElfFile) (ei_data note note_end : ℕ) (hdr : NoteHeader)
    → read_nhdr f ei_data note ≡ parsed hdr
    → IsStill hdr
    → note < note_end
    → note < word
    → (fuel : ℕ) → count_notes fuel f ei_data note note_end ≡ endless
unfolding count_notes
count_notes-still f ei_data note note_end hdr h still inside small zero = refl
count_notes-still f ei_data note note_end hdr h still inside small (suc fuel) =
    let more = lt→ltb note note_end inside in
    let stays : (note + note_size hdr) % word ≡ note =
      unfold note_size in (rw still (omega (arith, small))) in
    rw (more, h, stays, count_notes-still f ei_data note note_end hdr h still inside small fuel)
      refl

note_phdr-found :
    (ps : List MemPhdr) (start end : ℕ) → 0 < start → note_phdr ps start end ≡ (start, end)
unfolding note_phdr
note_phdr-found [] start end pos = refl
note_phdr-found (p ∷ ps) start end pos =
    let there : (start == 0) ≡ false = ground arith in rw there refl

note_phdr-first :
    (p : MemPhdr) (ps : List MemPhdr)
    → p.p_type ≡ 4
    → 0 < p.p_data
    → note_phdr (p ∷ ps) 0 0 ≡ (p.p_data, (p.p_data + p.p_filesz) % word)
unfolding note_phdr
note_phdr-first p ps is_note pos =
    let found : (p.p_type == 4) ≡ true = (==_iff p.p_type 4).1 is_note in
    rw found (note_phdr-found ps p.p_data ((p.p_data + p.p_filesz) % word) pos)

note_shdr-found :
    (ss : List MemShdr) (start end : ℕ) → 0 < start → note_shdr ss start end ≡ (start, end)
unfolding note_shdr
note_shdr-found [] start end pos = refl
note_shdr-found (s ∷ ss) start end pos =
    let there : (start == 0) ≡ false = ground arith in rw there refl

-- The search ends at the first header.
find_in_shdrs-found :
    (h : MemEhdr) (start end : ℕ) → 0 < start → find_in_shdrs h start end ≡ parsed (start, end)
unfolding find_in_shdrs
find_in_shdrs-found h start end pos = elim (Option-cases h.e_shdr) [
  | inl null ↦ ground (arith, null)
  | inr (ss, table) ↦ rw table (ap parsed (note_shdr-found ss start end pos))
]

-- `build_mem_notes` never ends for a file whose first program header is of notes, where the size of
-- the first note, as a word, is 0: for a name of 4294967284 bytes and no text.
build_mem_notes-endless :
    (fuel : ℕ) (f : ElfFile) (h : MemEhdr) (p : MemPhdr) (ps : List MemPhdr) (hdr : NoteHeader)
    → h.e_phdr ≡ some (p ∷ ps)
    → p.p_type ≡ 4
    → 0 < p.p_data
    → p.p_data < word
    → p.p_data < (p.p_data + p.p_filesz) % word
    → read_nhdr f h.ei_data p.p_data ≡ parsed hdr
    → hdr.n_namesz ≡ 4294967284
    → hdr.n_descsz ≡ 0
    → build_mem_notes fuel f h ≡ endless
unfolding build_mem_notes walk_notes
build_mem_notes-endless fuel f h p ps hdr t is_note pos small inside h_read name text =
    let end = (p.p_data + p.p_filesz) % word in
    let found : find_in_phdrs h ≡ parsed (p.p_data, end) =
      unfold find_in_phdrs in (rw (t, note_phdr-first p ps is_note pos) refl) in
    let there : (p.p_data == 0) ≡ false = ground (arith, pos) in
    let still : IsStill hdr = rw (name, text) refl in
    rw
      (
        found,
        find_in_shdrs-found h p.p_data end pos,
        there,
        count_notes-still f h.ei_data p.p_data end hdr h_read still inside small fuel,
      )
      refl
