-- ===== src/Monoboot/Show/Disk.antt =====
-- What `show disk` lists, and where it leaves the program.
use monoimage.Prelude.{
  ℕ, ◌+◌, ◌%◌, ◌<◌, ◌≡◌, append-nil, sym, ap₂, refl, ◌∙◌, ap, true, false, none, some, List, [],
  ◌∷◌, ◌++◌, Bytes, codes, All, arith, Bool-cases, inl, inr, if◌then◌else◌, if_true,
}
use monoimage.Monoboot.Show.{
  Volume, Line, file, summary, int_word, is_hidden, Listing, disk_loop, show_summary, show_names,
  go_to, cmd_show_disk,
}

-- The names that are listed, their lines, and the sum of their sizes.
abbrev pub visible : List Bytes → List Bytes
visible [] = []
visible (n ∷ ns) = if is_hidden n then visible ns else n ∷ visible ns

abbrev pub file_lines : (Bytes → ℕ) → List Bytes → List Line
file_lines size_of [] = []
file_lines size_of (n ∷ ns) = file (size_of n % int_word) n ∷ file_lines size_of ns

abbrev pub total_size : (Bytes → ℕ) → List Bytes → ℕ
total_size size_of [] = 0
total_size size_of (n ∷ ns) = size_of n + total_size size_of ns

-- stat gives the size of a name that is listed.
abbrev pub Known : Volume → (Bytes → ℕ) → Bytes → Type 0
Known v size_of name = is_hidden name ≡ false → v.size (codes "/images") name ≡ some (size_of name)

abbrev prepend : List Line → Listing → Listing
prepend ls l = record { complete = l.complete; used = l.used; lines = ls ++ l.lines }

module _ (v : Volume) (size_of : Bytes → ℕ) where
  disk_loop-hidden :
      (name : Bytes) (names : List Bytes) (used : ℕ)
      → is_hidden name ≡ true
      → disk_loop v (codes "/images") (name ∷ names) used ≡ disk_loop v (codes "/images") names used
  unfolding disk_loop
  disk_loop-hidden name names used h = rw h refl

  disk_loop-file :
      (name : Bytes) (names : List Bytes) (used size : ℕ)
      → is_hidden name ≡ false
      → v.size (codes "/images") name ≡ some size
      → disk_loop v (codes "/images") (name ∷ names) used
        ≡ prepend
            (file (size % int_word) name ∷ [])
            (disk_loop v (codes "/images") names ((used + size) % int_word))
  unfolding disk_loop
  disk_loop-file name names used size h e = rw (h, e, disk_loop) refl

  disk_loop-append :
      (front back : List Bytes) (used : ℕ)
      → used < int_word
      → All (Known v size_of) front
      → disk_loop v (codes "/images") (front ++ back) used
        ≡ prepend (file_lines size_of (visible front)) (
            disk_loop v
              (codes "/images")
              back
              ((used + total_size size_of (visible front)) % int_word))
  disk_loop-append [] back used small h =
      ap (disk_loop v (codes "/images") back) (omega (arith, small))
  disk_loop-append (n ∷ front) back used small h = elim (Bool-cases (is_hidden n)) [
    | inl e ↦
        rw e
          (disk_loop-hidden n (front ++ back) used e ∙ disk_loop-append front back used small h.1)
    | inr e ↦
        let more = total_size size_of (visible front) in
        let sum : ((used + size_of n) % int_word + more) % int_word
            ≡ (used + (size_of n + more)) % int_word =
          omega arith in
        rw (e, ← sum)
          (disk_loop-file n (front ++ back) used (size_of n) e (h.0 e)
            ∙ ap (prepend (file (size_of n % int_word) n ∷ []))
                (disk_loop-append front back ((used + size_of n) % int_word) (omega arith) h.1))
  ]

  disk_loop-all :
      (names : List Bytes)
      → All (Known v size_of) names
      → disk_loop v (codes "/images") names 0 ≡ record {
        complete = true;
        used = total_size size_of (visible names) % int_word;
        lines = file_lines size_of (visible names);
      }
  unfolding disk_loop
  disk_loop-all names h =
      let zero_add : 0 + total_size size_of (visible names) ≡ total_size size_of (visible names) =
        omega arith in
      let nil = append-nil (file_lines size_of (visible names)) in
      ap (λ ns. disk_loop v (codes "/images") ns 0) (sym (append-nil names))
      ∙ disk_loop-append names [] 0 (omega arith) h
      ∙ ap₂
          (λ (u : ℕ) (ls : List Line). record { complete = true; used = u % int_word; lines = ls })
          zero_add nil

  disk_loop-fails :
      (name : Bytes) (names : List Bytes) (used : ℕ)
      → is_hidden name ≡ false
      → v.size (codes "/images") name ≡ none
      → disk_loop v (codes "/images") (name ∷ names) used
        ≡ record { complete = false; used = used; lines = [] }
  unfolding disk_loop
  disk_loop-fails name names used h e = rw (h, e, disk_loop) refl

  cmd_show_disk-listing :
      (names : List Bytes) (cwd : Bytes)
      → v.names ≡ some names
      → v.chdir_ok (codes "/images") ≡ true
      → cmd_show_disk v cwd
        ≡ show_summary v (codes "/images") (disk_loop v (codes "/images") names 0)
  unfolding cmd_show_disk show_names
  cmd_show_disk-listing names cwd n d =
      let inside : go_to v (codes "/images") cwd ≡ codes "/images" = if_true _ _ d in
      let named : cmd_show_disk v cwd ≡ show_names v (go_to v (codes "/images") cwd) names =
        ground (arith, n) in
      named ∙ ap (λ dir. show_names v dir names) inside

  show_summary-complete :
      (ls : List Line) (used available total : ℕ)
      → v.chdir_ok (codes "/") ≡ true
      → v.room ≡ some (available, total)
      → show_summary v (codes "/images") (record { complete = true; used = used; lines = ls })
        ≡ record { ok = true; cwd = codes "/"; lines = ls ++ summary used available total ∷ [] }
  unfolding show_summary
  show_summary-complete ls used available total r s = rw (s, show_summary, r) refl

  -- Where the directory can be entered and left again and every stat succeeds, `show disk` prints the
  -- names that do not begin with a dot or with lost+found, in the order of the directory, each with its
  -- size, then the sum of the sizes and what statvfs says; the sizes and the sum are cut to 32 bits.
  -- The program is back in the root directory.
  cmd_show_disk-lines :
      (names : List Bytes) (available total : ℕ) (cwd : Bytes)
      → v.names ≡ some names
      → v.chdir_ok (codes "/images") ≡ true
      → v.chdir_ok (codes "/") ≡ true
      → v.room ≡ some (available, total)
      → All (Known v size_of) names
      → cmd_show_disk v cwd ≡ record {
        ok = true;
        cwd = codes "/";
        lines =
            file_lines size_of (visible names)
            ++ summary (total_size size_of (visible names) % int_word) available total ∷ [];
      }
  unfolding cmd_show_disk
  cmd_show_disk-lines names available total cwd n d r s h =
      let used = total_size size_of (visible names) % int_word in
      let all : disk_loop v (codes "/images") names 0
          ≡ record { complete = true; used = used; lines = file_lines size_of (visible names) } =
        disk_loop-all names h in
      cmd_show_disk-listing names cwd n d
      ∙ ap (show_summary v (codes "/images")) all
      ∙ show_summary-complete (file_lines size_of (visible names)) used available total r s

  show_summary-stopped :
      (ls : List Line) (used : ℕ)
      → show_summary v
          (codes "/images")
          (prepend ls (record { complete = false; used = used; lines = [] }))
        ≡ record { ok = false; cwd = codes "/images"; lines = ls }
  unfolding show_summary
  show_summary-stopped ls used =
      ap (λ (xs : List Line). record { ok = false; cwd = codes "/images"; lines = xs })
        (append-nil ls)

  -- Where a stat fails, `show disk` prints the files in front and returns -1, and the program stays in
  -- /images, where the relative path of the configuration names another file.
  cmd_show_disk-stays :
      (front back : List Bytes) (bad cwd : Bytes)
      → v.names ≡ some (front ++ bad ∷ back)
      → v.chdir_ok (codes "/images") ≡ true
      → All (Known v size_of) front
      → is_hidden bad ≡ false
      → v.size (codes "/images") bad ≡ none
      → cmd_show_disk v cwd
        ≡ record { ok = false; cwd = codes "/images"; lines = file_lines size_of (visible front) }
  unfolding cmd_show_disk
  cmd_show_disk-stays front back bad cwd n d h b e =
      let used = (0 + total_size size_of (visible front)) % int_word in
      cmd_show_disk-listing (front ++ bad ∷ back) cwd n d
      ∙ ap (show_summary v (codes "/images")) (
          disk_loop-append front (bad ∷ back) 0 (omega arith) h
          ∙ ap (prepend (file_lines size_of (visible front))) (disk_loop-fails bad back used b e))
      ∙ show_summary-stopped (file_lines size_of (visible front)) used
