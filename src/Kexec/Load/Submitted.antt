-- ===== src/Kexec/Load/Submitted.antt =====
-- What the system is given by `my_load`.
use mathlib.Core.List.{Perm}
use monoimage.Prelude.{
  ℕ, ◌+◌, ◌-◌, ◌%◌, ◌≤◌, ◌<◌, ◌≡◌, inl, inr, refl, true, Option, none, some, List, [], ◌∷◌, Bytes,
  arith, All, All-weaken, Bool-cases, Option-cases,
}
use monoimage.Kexec.{word, MemoryRange, KexecSegment, KexecInfo, Machine, Outcome, returned, died}
use monoimage.Kexec.Range.{valid_memory_segment, valid_memory_range-IsUsable}
use monoimage.Kexec.Sort.{sort_segments}
use monoimage.Kexec.Sort.Laws.{IsSorted, IsApart, sort_segments_lem, sort_segments-All}
use monoimage.Kexec.Hole.Free.{IsPlaced}
use monoimage.Kexec.Hole.Place.{EndsLow, InCutRam-EndsLow}
use monoimage.Kexec.Slurp.{Loop, ended, out_of_fuel}
use monoimage.Kexec.Load.{
  FileType, Platform, choose_type, arch_compat_trampoline, all_valid, Submission, submitted,
  no_info, check_and_submit, after_load, load_as, my_load,
}

-- The address and the size of a segment are words.
abbrev pub IsWords : KexecSegment → Type 0
IsWords s = (s.mem < word) × (s.memsz < word)

-- What the system is given: the segments that a file type of the table has made of the file, sorted,
-- apart, and each inside one range of RAM and between the bounds of the command line.
pub record IsSubmitted (m : Machine) (p : Platform) (type : Option Bytes) (types : List FileType)
    (buf : Bytes) (s : Submission) : Type 0 where
  pub ranges : List MemoryRange
  pub known : p.ranges ≡ some ranges
  pub file_type : FileType
  pub chosen : choose_type type types buf ≡ some file_type
  pub loaded : KexecInfo
  pub loads : file_type.load buf no_info ≡ returned (some loaded)
  pub perm : Perm s.info.segment loaded.segment
  pub sorted : IsSorted s.info.segment
  pub apart : IsApart s.info.segment
  pub placed : All (IsPlaced ranges) s.info.segment
  pub bounds : All (λ x. (m.mem_min ≤ x.mem) × (x.mem + x.memsz ≤ m.mem_max + 1)) s.info.segment

-- A segment that passes the test, where every range of RAM ends before the last byte of the address
-- space.
valid_memory_segment-IsPlaced :
    (m : Machine) (s : KexecSegment)
    → EndsLow 1 m.memory_range
    → IsWords s
    → valid_memory_segment m s ≡ true
    → IsPlaced m.memory_range s × (m.mem_min ≤ s.mem) × (s.mem + s.memsz ≤ m.mem_max + 1)
unfolding valid_memory_segment
valid_memory_segment-IsPlaced m s low w h =
    let last = (s.mem + s.memsz + word - 1) % word in
    let u = (valid_memory_range-IsUsable m s.mem ((s.mem + s.memsz + word - 1) % word)).0 h in
    let ends =
      InCutRam-EndsLow 1 m.memory_range s.mem ((s.mem + s.memsz + word - 1) % word) low u.in_ram in
    let order = u.ordered in
    let up = u.above in
    let down = u.below in
    let same : (s.mem + s.memsz + word - 1) % word ≡ s.mem + s.memsz - 1 = omega (arith, w) in
    let pos : 0 < s.memsz = omega (arith, w) in
    ((pos, omega (arith, w), rw same at u.in_ram), up, omega arith)

all_valid-All :
    (m : Machine) (xs : List KexecSegment)
    → all_valid m xs ≡ true
    → All (λ s. valid_memory_segment m s ≡ true) xs
unfolding all_valid
all_valid-All m [] h = tt
all_valid-All m (s ∷ rest) h = elim (Bool-cases (valid_memory_segment m s)) [
  | inl e ↦ (e, all_valid-All m rest (ground (arith, h, e)))
  | inr e ↦ absurd (ground (arith, h, e))
]

-- A segment that passes, with the bounds of the command line.
abbrev IsPassed : Machine → KexecSegment → Type 0
IsPassed m s = IsPlaced m.memory_range s × (m.mem_min ≤ s.mem) × (s.mem + s.memsz ≤ m.mem_max + 1)

all_valid-IsPassed :
    (m : Machine) (xs : List KexecSegment)
    → EndsLow 1 m.memory_range
    → All IsWords xs
    → all_valid m xs ≡ true
    → All (IsPassed m) xs
unfolding all_valid
all_valid-IsPassed m [] low w h = tt
all_valid-IsPassed m (s ∷ rest) low w h = elim (Bool-cases (valid_memory_segment m s)) [
  | inl e ↦ (
    valid_memory_segment-IsPlaced m s low w.0 e,
    all_valid-IsPassed m rest low w.1 (ground (arith, h, e)),
  )
  | inr e ↦ absurd (ground (arith, h, e))
]

check_and_submit-cases :
    (m : Machine) (info : KexecInfo) (flags : ℕ) (s : Submission)
    → check_and_submit m info flags ≡ submitted s
    → (all_valid m info.segment ≡ true)
      × ((sort_segments info).1 ≡ true)
      × (s.info ≡ (sort_segments info).0)
unfolding check_and_submit
check_and_submit-cases m info flags s h = (ground (arith, h), ground (arith, h), ground (arith, h))

trampoline-segment :
    (p : Platform) (info info' : KexecInfo) (flags flags' : ℕ)
    → arch_compat_trampoline p info flags ≡ some (info', flags')
    → info'.segment ≡ info.segment
unfolding arch_compat_trampoline
trampoline-segment p info info' flags flags' h = elim (Option-cases p.machine) [
  | inl e ↦ absurd (ground (arith, h, e))
  | inr (machine, e) ↦ elim (Option-cases (p.compat_entry info)) [
    | inl f ↦ ground (arith, h, e, f)
    | inr (entry, f) ↦ ground (arith, h, e, f)
  ]
]

-- The segments that a file type makes are made of words.
abbrev pub LoadsWords : FileType → Type 0
LoadsWords f =
    (buf : Bytes) (info : KexecInfo)
    → f.load buf no_info ≡ returned (some info)
    → All IsWords info.segment

module _ (m : Machine) (p : Platform) (type : Option Bytes) (types : List FileType) (buf : Bytes)
    (ranges : List MemoryRange) (known : p.ranges ≡ some ranges) (low : EndsLow 1 ranges)
    (f : FileType) (chosen : choose_type type types buf ≡ some f) (words : LoadsWords f) where
  after_load-IsSubmitted :
      (flags : ℕ) (o : Outcome (Option KexecInfo)) (s : Submission)
      → f.load buf no_info ≡ o
      → after_load (record m { memory_range = ranges }) p flags o ≡ submitted s
      → IsSubmitted m p type types buf s
  unfolding after_load
  after_load-IsSubmitted flags (died d) s l h = absurd (ground (arith, h))
  after_load-IsSubmitted flags (returned none) s l h = absurd (ground (arith, h))
  after_load-IsSubmitted flags (returned (some info)) s l h =
      let m' = record m { memory_range = ranges } in
      elim (Option-cases (arch_compat_trampoline p info flags)) [
        | inl e ↦ absurd (ground (arith, h, e))
        | inr ((info', flags'), e) ↦
            let same = trampoline-segment p info info' flags flags' e in
            let (valid, no_overlap, made) =
              check_and_submit-cases m' info' flags' s (rw (e, after_load) at h) in
            let w : All IsWords info'.segment = rw same (words buf info l) in
            let passed = all_valid-IsPassed m' info'.segment low w valid in
            let kept = sort_segments-All (IsPassed m') info' passed in
            let fits =
              All-weaken (IsPassed m') (λ x. x.mem + x.memsz < word) info'.segment (λ x q. q.0.1)
                passed in
            let (perm, sorted, apart) = sort_segments_lem info' fits in
            record {
              ranges = ranges;
              known = known;
              file_type = f;
              chosen = chosen;
              loaded = info;
              loads = l;
              perm = rw (made, ← same) perm;
              sorted = rw made sorted;
              apart = rw made (apart.0 no_overlap);
              placed = rw made (All-weaken (IsPassed m') (IsPlaced ranges) _ (λ x q. q.0) kept);
              bounds = rw made (
                  All-weaken (IsPassed m')
                    (λ x. (m.mem_min ≤ x.mem) × (x.mem + x.memsz ≤ m.mem_max + 1)) _
                    (λ x q. (q.1, q.2)) kept);
            }
      ]

load_as-IsSubmitted :
    (m : Machine) (p : Platform) (type : Option Bytes) (types : List FileType) (flags : ℕ)
    (buf : Bytes) (s : Submission)
    → ((ranges : List MemoryRange) → p.ranges ≡ some ranges → EndsLow 1 ranges)
    → ((f : FileType) → choose_type type types buf ≡ some f → LoadsWords f)
    → load_as m p type types flags buf ≡ submitted s
    → IsSubmitted m p type types buf s
unfolding load_as
load_as-IsSubmitted m p type types flags buf s low words h = elim (Option-cases p.ranges) [
  | inl e ↦ absurd (ground (arith, h, e))
  | inr (ranges, e) ↦ elim (Option-cases (choose_type type types buf)) [
    | inl c ↦ absurd (ground (arith, h, e, c))
    | inr (f, c) ↦
        after_load-IsSubmitted m p type types buf ranges e (low ranges e) f c (words f c) flags
          (f.load buf no_info) s refl (ground (arith, h, e, c))
  ]
]

-- Where `my_load` makes the system call, the segments are those that the chosen file type has made of
-- the file, in the order of their addresses; no two of them meet, none is empty, and each lies inside
-- one range of RAM and between the bounds of the command line. The ranges of RAM end before the last
-- byte of the address space, and what the file type makes are words.
pub my_load-IsSubmitted :
    (m : Machine) (p : Platform) (type : Option Bytes) (types : List FileType) (flags : ℕ)
    (kernel : Option (Loop Bytes)) (s : Submission)
    → ((ranges : List MemoryRange) → p.ranges ≡ some ranges → EndsLow 1 ranges)
    → ((f : FileType) (buf : Bytes) → choose_type type types buf ≡ some f → LoadsWords f)
    → my_load m p type types flags kernel ≡ submitted s
    → (buf : Bytes) × (kernel ≡ some (ended (returned buf))) × IsSubmitted m p type types buf s
unfolding my_load
my_load-IsSubmitted m p type types flags none s low words h = absurd (ground (arith, h))
my_load-IsSubmitted m p type types flags (some out_of_fuel) s low words h =
    absurd (ground (arith, h))
my_load-IsSubmitted m p type types flags (some (ended (died d))) s low words h =
    absurd (ground (arith, h))
my_load-IsSubmitted m p type types flags (some (ended (returned buf))) s low words h =
    (buf, refl, load_as-IsSubmitted m p type types flags buf s low (λ f. words f buf) h)
