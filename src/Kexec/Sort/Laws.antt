-- ===== src/Kexec/Sort/Laws.antt =====
-- The order, the contents and the overlaps of the segments after `sort_segments`.
use mathlib.Core.List.{Perm}
use mathlib.Core.List.Perm
use monoimage.Prelude.{
  ℕ, zero, suc, ◌+◌, ◌%◌, ◌≤◌, ◌<◌, ◌≡◌, refl, ◌⊎◌, inl, inr, ◌↔◌, true, false, List, [], ◌∷◌,
  arith, ltb, length, get_or, set, All, length-set, Bool-cases, tests, All-weaken,
}
use monoimage.Kexec.{word, KexecSegment, KexecInfo}
use monoimage.Kexec.Sort.{least_index, swap_least, sort_loop, no_overlap, sort_segments}

abbrev pub IsBelow : ℕ → List KexecSegment → Type 0
IsBelow a = All (λ s. a ≤ s.mem)

abbrev pub IsSorted : List KexecSegment → Type 0
IsSorted [] = Unit
IsSorted (s ∷ rest) = IsBelow s.mem rest × IsSorted rest

-- Each segment ends before every later one begins.
abbrev pub IsApart : List KexecSegment → Type 0
IsApart [] = Unit
IsApart (s ∷ rest) = IsBelow (s.mem + s.memsz) rest × IsApart rest

-- No segment reaches the end of the address space.
abbrev pub Fits : List KexecSegment → Type 0
Fits = All (λ s. s.mem + s.memsz < word)

-- What the inner loop finds, as an index or as the start that it was given.
abbrev Found : List KexecSegment → ℕ → ℕ → ℕ → ℕ → Type 0
Found rest j tidx best r =
    ((r ≡ tidx) × IsBelow best rest)
    ⊎ ((k : ℕ) × (r ≡ j + k)
        × (k < length rest)
        × ((d : KexecSegment) → (get_or rest k d).mem ≤ best)
        × ((d : KexecSegment) → IsBelow (get_or rest k d).mem rest))

least_index-Found :
    (rest : List KexecSegment) (j tidx best : ℕ)
    → Found rest j tidx best (least_index rest j tidx best)
unfolding least_index
least_index-Found [] j tidx best = inl (refl, tt)
least_index-Found (s ∷ rest) j tidx best = elim (Bool-cases (ltb s.mem best)) [
  | inl e ↦ rw e (elim (least_index-Found rest (suc j) j s.mem) [
    | inl (at, below) ↦
        inr (0, omega (arith, at), omega arith, λ d. omega tests, λ d. (omega arith, below))
    | inr (k, at, k_lt, le, below) ↦
        inr (suc k, omega arith, omega arith, (λ d. omega (tests, le d)), λ d. (le d, below d))
  ])
  | inr e ↦ rw e (elim (least_index-Found rest (suc j) tidx best) [
    | inl (at, below) ↦ inl (at, (omega tests, below))
    | inr (k, at, k_lt, le, below) ↦
        inr (suc k, omega arith, omega arith, le, λ d. (omega (tests, le d), below d))
  ])
]

-- An exchange of the head with an element of the tail is a permutation.
exchange-perm :
    (x : KexecSegment) (xs : List KexecSegment) (k : ℕ)
    → k < length xs
    → Perm (get_or xs k x ∷ set xs k x) (x ∷ xs)
exchange-perm x [] k h = elim h [ ]
exchange-perm x (y ∷ ys) zero h = Perm.swap x y ys
exchange-perm x (y ∷ ys) (suc k) h =
    Perm.trans (Perm.swap y (get_or ys k x) (set ys k x))
      (Perm.trans (Perm.cons y (exchange-perm x ys k (omega arith))) (Perm.swap x y ys))

All-set :
    (P : KexecSegment → Type 0) (xs : List KexecSegment) (k : ℕ) (x : KexecSegment)
    → All P xs
    → P x
    → All P (set xs k x)
All-set P [] k x h p = tt
All-set P (y ∷ ys) zero x h p = (p, h.1)
All-set P (y ∷ ys) (suc k) x h p = (h.0, All-set P ys k x h.1 p)

All-get :
    (P : KexecSegment → Type 0) (xs : List KexecSegment) (k : ℕ) (x : KexecSegment)
    → All P xs
    → P x
    → P (get_or xs k x)
All-get P [] k x h p = p
All-get P (y ∷ ys) zero x h p = h.0
All-get P (y ∷ ys) (suc k) x h p = All-get P ys k x h.1 p

-- One round: the head that is taken is least, and nothing is lost.
record IsRound (x : KexecSegment) (xs : List KexecSegment) (r : List KexecSegment) : Type 1 where
  head : KexecSegment
  rest : List KexecSegment
  made : r ≡ head ∷ rest
  same_length : length rest ≡ length xs
  perm : Perm (head ∷ rest) (x ∷ xs)
  least : IsBelow head.mem rest
  keeps : (P : KexecSegment → Type 0) → All P (x ∷ xs) → All P (head ∷ rest)

swap_least-IsRound :
    (x : KexecSegment) (xs : List KexecSegment)
    → IsRound x xs (swap_least x xs (least_index xs 1 0 x.mem))
unfolding swap_least
swap_least-IsRound x xs = elim (least_index-Found xs 1 0 x.mem) [
  | inl (at, below) ↦ rw at (record {
    head = x;
    rest = xs;
    made = refl;
    same_length = refl;
    perm = Perm.refl (x ∷ xs);
    least = below;
    keeps = λ P h. h;
  })
  | inr (k, at, k_lt, le, below) ↦
      let at_suc : least_index xs 1 0 x.mem ≡ suc k = omega arith in
      rw at_suc (record {
        head = get_or xs k x;
        rest = set xs k x;
        made = refl;
        same_length = length-set xs k x;
        perm = exchange-perm x xs k k_lt;
        least = All-set (λ s. (get_or xs k x).mem ≤ s.mem) xs k x (below x) (le x);
        keeps = λ P h. (All-get P xs k x h.1 h.0, All-set P xs k x h.1 h.0);
      })
]

sort_loop-All :
    (P : KexecSegment → Type 0) (n : ℕ) (xs : List KexecSegment) → All P xs → All P (sort_loop n xs)
unfolding sort_loop
sort_loop-All P zero xs h = h
sort_loop-All P (suc n) [] h = h
sort_loop-All P (suc n) (x ∷ xs) h =
    let r = swap_least-IsRound x xs in
    let kept = r.keeps P h in rw r.made (kept.0, sort_loop-All P n r.rest kept.1)

sort_loop-perm : (n : ℕ) (xs : List KexecSegment) → Perm (sort_loop n xs) xs
unfolding sort_loop
sort_loop-perm zero xs = Perm.refl xs
sort_loop-perm (suc n) [] = Perm.refl []
sort_loop-perm (suc n) (x ∷ xs) =
    let r = swap_least-IsRound x xs in
    rw r.made (Perm.trans (Perm.cons r.head (sort_loop-perm n r.rest)) r.perm)

-- As many rounds as there are segments sort them.
sort_loop-IsSorted : (n : ℕ) (xs : List KexecSegment) → length xs ≤ n → IsSorted (sort_loop n xs)
unfolding sort_loop
sort_loop-IsSorted zero [] h = tt
sort_loop-IsSorted zero (x ∷ xs) h = absurd (omega arith)
sort_loop-IsSorted (suc n) [] h = tt
sort_loop-IsSorted (suc n) (x ∷ xs) h =
    let r = swap_least-IsRound x xs in
    rw r.made (
      sort_loop-All (λ s. r.head.mem ≤ s.mem) n r.rest r.least,
      sort_loop-IsSorted n r.rest (omega (arith, r.same_length)),
    )

in_word : (s : KexecSegment) → s.mem + s.memsz < word → (s.mem + s.memsz) % word ≡ s.mem + s.memsz
in_word s h = omega arith

no_overlap→IsApart :
    (top : ℕ) (xs : List KexecSegment)
    → IsSorted xs
    → Fits xs
    → no_overlap top xs ≡ true
    → IsBelow top xs × IsApart xs
unfolding no_overlap
no_overlap→IsApart top [] s f h = (tt, tt)
no_overlap→IsApart top (x ∷ xs) s f h = elim (Bool-cases (ltb x.mem top)) [
  | inl early ↦ absurd (ground arith)
  | inr late ↦
      let le : top ≤ x.mem = omega tests in
      let later = no_overlap→IsApart (x.mem + x.memsz) xs s.1 f.1 (rw (late, in_word x f.0) at h) in
      ((le, All-weaken (λ t. x.mem ≤ t.mem) (λ t. top ≤ t.mem) xs (λ t p. omega arith) s.0), later)
]

IsApart→no_overlap :
    (top : ℕ) (xs : List KexecSegment)
    → Fits xs
    → IsBelow top xs
    → IsApart xs
    → no_overlap top xs ≡ true
unfolding no_overlap
IsApart→no_overlap top [] f b a = refl
IsApart→no_overlap top (x ∷ xs) f b a =
    let late : ltb x.mem top ≡ false = ground (arith, b.0) in
    rw (late, in_word x f.0) (IsApart→no_overlap (x.mem + x.memsz) xs f.1 a.0 a.1)

IsBelow-zero : (xs : List KexecSegment) → IsBelow 0 xs
IsBelow-zero [] = tt
IsBelow-zero (x ∷ xs) = (omega arith, IsBelow-zero xs)

pub sort_segments-All :
    (P : KexecSegment → Type 0) (info : KexecInfo)
    → All P info.segment
    → All P (sort_segments info).0.segment
unfolding sort_segments
sort_segments-All P info = sort_loop-All P (length info.segment) info.segment

-- `sort_segments` returns the same segments in the order of their addresses, and where no segment
-- reaches the end of the address space, it returns 0 exactly when each of them ends before every
-- later one begins.
pub sort_segments_lem :
    (info : KexecInfo)
    → Fits info.segment
    → Perm (sort_segments info).0.segment info.segment
      × IsSorted (sort_segments info).0.segment
      × (((sort_segments info).1 ≡ true) ↔ IsApart (sort_segments info).0.segment)
unfolding sort_segments
sort_segments_lem info f =
    let n = length info.segment in
    let sorted = sort_loop-IsSorted n info.segment (omega arith) in
    let fits = sort_loop-All (λ s. s.mem + s.memsz < word) n info.segment f in
    let all_late = IsBelow-zero (sort_loop n info.segment) in
    (
      sort_loop-perm n info.segment,
      sorted,
      (
        (λ h. (no_overlap→IsApart 0 (sort_loop n info.segment) sorted fits h).1),
        λ a. IsApart→no_overlap 0 (sort_loop n info.segment) fits all_late a,
      ),
    )
