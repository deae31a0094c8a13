-- ===== src/Kexec/Memory/Lines.antt =====
-- The lines of /proc/iomem.
use monoimage.Prelude.{
  ℕ, zero, suc, ◌+◌, ◌≤◌, ◌<◌, ◌≡◌, refl, ◌∙◌, ap, sym, true, false, Option, none, some, List, [],
  ◌∷◌, ◌++◌, leb, Bytes, length, take, drop, All, arith, if_false, ◌==◌, append_assoc,
  length-append, drop-append,
}
use monoimage.Cmdline.{fgets, read_line}
use monoimage.Cmdline.Laws.{Lacks, newline}
use monoimage.Kexec.{MemoryRange}
use monoimage.Kexec.Memory.{
  Scan, max_memory_ranges, range_of, add_range, ranges_loop, get_memory_ranges,
}

-- A line without its newline, which fits the array.
abbrev pub IsLine : Bytes → Type 0
IsLine l = Lacks newline l × (length l < 159)

-- The text of the lines, and the ranges that the lines name.
abbrev pub unlines : List Bytes → Bytes
unlines [] = []
unlines (l ∷ ls) = l ++ newline ∷ unlines ls

abbrev pub named : Option MemoryRange → List MemoryRange → List MemoryRange
named none rs = rs
named (some r) rs = r ∷ rs

abbrev pub named_ranges : Scan → List Bytes → List MemoryRange
named_ranges scan [] = []
named_ranges scan (l ∷ ls) = named (range_of scan (l ++ newline ∷ [])) (named_ranges scan ls)

read_line-line :
    (n : ℕ) (l rest : Bytes)
    → Lacks newline l
    → length l < n
    → read_line n (l ++ newline ∷ rest) ≡ l ++ newline ∷ []
unfolding read_line
read_line-line zero l rest h f = absurd (omega (arith, f))
read_line-line (suc n) [] rest h f = refl
read_line-line (suc n) (x ∷ l) rest h f =
    let other : (x == 10) ≡ false = ground (arith, h.0) in
    rw (other, read_line-line n l rest h.1 (omega (arith, f)))

-- One round of the loop, for a text that is not empty.
ranges_loop-step :
    (fuel : ℕ) (scan : Scan) (text line rest : Bytes) (n : ℕ)
    → 0 < length text
    → fgets 160 text ≡ line
    → drop (length line) text ≡ rest
    → leb max_memory_ranges n ≡ false
    → ranges_loop (suc fuel) scan text n
      ≡ add_range (range_of scan line) (ranges_loop fuel scan rest) n
unfolding ranges_loop
ranges_loop-step fuel scan [] line rest n h f d e = absurd (omega (arith, h))
ranges_loop-step fuel scan (b ∷ text) line rest n h f d e =
    if_false _ _ e
    ∙ ap (λ l. add_range (range_of scan l) (ranges_loop fuel scan (drop (length l) (b ∷ text))) n) f
    ∙ ap (λ t. add_range (range_of scan line) (ranges_loop fuel scan t) n) d

ranges_loop-full :
    (fuel : ℕ) (scan : Scan) (text : Bytes) (n : ℕ)
    → leb max_memory_ranges n ≡ true
    → ranges_loop fuel scan text n ≡ []
unfolding ranges_loop
ranges_loop-full zero scan text n h = refl
ranges_loop-full (suc fuel) scan [] n h = refl
ranges_loop-full (suc fuel) scan (b ∷ text) n h = rw h refl

take-nil : (k : ℕ) → take {A = MemoryRange} k [] ≡ []
take-nil zero = refl
take-nil (suc k) = refl

ranges_loop-end : (fuel : ℕ) (scan : Scan) (n : ℕ) → ranges_loop fuel scan [] n ≡ []
unfolding ranges_loop
ranges_loop-end zero scan n = refl
ranges_loop-end (suc fuel) scan n = refl

drop-line : (l rest : Bytes) → drop (length (l ++ newline ∷ [])) (l ++ newline ∷ rest) ≡ rest
drop-line l rest =
    ap (drop (length (l ++ newline ∷ []))) (sym (append_assoc l (newline ∷ []) rest))
    ∙ drop-append (l ++ newline ∷ []) rest

add_range-named :
    (o : Option MemoryRange) (rest : ℕ → List MemoryRange) (rs : List MemoryRange) (n k : ℕ)
    → rest n ≡ take (suc k) rs
    → rest (suc n) ≡ take k rs
    → add_range o rest n ≡ take (suc k) (named o rs)
unfolding add_range
add_range-named none rest rs n k same next = same
add_range-named (some r) rest rs n k same next = ap (◌∷◌ r) next

ranges_loop-lines :
    (scan : Scan) (fuel : ℕ) (ls : List Bytes) (n k : ℕ)
    → All IsLine ls
    → length (unlines ls) ≤ fuel
    → n + k ≡ max_memory_ranges
    → ranges_loop fuel scan (unlines ls) n ≡ take k (named_ranges scan ls)
unfolding fgets
ranges_loop-lines scan fuel [] n k h f e = ranges_loop-end fuel scan n ∙ sym (take-nil k)
ranges_loop-lines scan fuel ls n zero h f e =
    ranges_loop-full fuel scan (unlines ls) n (ground (arith, e))
ranges_loop-lines scan zero (l ∷ ls) n (suc k) h f e =
    absurd (omega (arith, f, length-append l (newline ∷ unlines ls)))
ranges_loop-lines scan (suc fuel) (l ∷ ls) n (suc k) h f e =
    let len = length-append l (newline ∷ unlines ls) in
    let left : length (unlines ls) ≤ fuel = omega (arith, f, len) in
    ranges_loop-step fuel scan (l ++ newline ∷ unlines ls) (l ++ newline ∷ []) (unlines ls) n
      (omega (arith, len)) (read_line-line 159 l (unlines ls) h.0.0 h.0.1)
      (drop-line l (unlines ls)) (ground (arith, e))
    ∙ add_range-named (range_of scan (l ++ newline ∷ [])) (ranges_loop fuel scan (unlines ls))
        (named_ranges scan ls) n k (ranges_loop-lines scan fuel ls n (suc k) h.1 left e)
        (ranges_loop-lines scan fuel ls (suc n) k h.1 left (omega (arith, e)))

-- `get_memory_ranges` gives the ranges that the lines of /proc/iomem name, in their order, up to the
-- first 64, where every line fits the array; each line counts for itself.
get_memory_ranges-lines :
    (scan : Scan) (ls : List Bytes)
    → All IsLine ls
    → get_memory_ranges scan (some (unlines ls))
      ≡ some (take max_memory_ranges (named_ranges scan ls))
unfolding get_memory_ranges
get_memory_ranges-lines scan ls h =
    ap some
      (ranges_loop-lines scan (length (unlines ls)) ls 0 max_memory_ranges h (omega arith) refl)
