-- ===== src/Kexec/Sort.antt =====
-- kexec-tools/kexec/kexec.c: `sort_segments`. The round of the outer loop at index `i` works on
-- `segment[i..]`, so indices here count from `i`.
pub mod Laws
use monoimage.Prelude.{
  ℕ, zero, suc, ◌+◌, ◌-◌, ◌%◌, Bool, true, false, List, [], ◌∷◌, ltb, ◌==◌, if◌then◌else◌, length,
  get_or, set,
}
use monoimage.Kexec.{word, KexecSegment, KexecInfo}

-- The inner loop: `j` is the index of the first of `rest`, and `best` is `segment[tidx].mem`.
unfoldable pub least_index : (rest : List KexecSegment) (j tidx best : ℕ) → ℕ
least_index [] j tidx best = tidx
least_index (s ∷ rest) j tidx best =
    let smaller = ltb s.mem best in
    least_index rest (suc j) (if smaller then j else tidx) (if smaller then s.mem else best)

-- The swap of `segment[i]` and `segment[tidx]`, where these differ.
unfoldable pub swap_least : KexecSegment → List KexecSegment → ℕ → List KexecSegment
swap_least x xs zero = x ∷ xs
swap_least x xs (suc k) = get_or xs k x ∷ set xs k x

-- The outer loop, one round for each segment that is left.
abbrev head_then : (List KexecSegment → List KexecSegment) → List KexecSegment → List KexecSegment
head_then f [] = []
head_then f (x ∷ xs) = x ∷ f xs

unfoldable pub sort_loop : ℕ → List KexecSegment → List KexecSegment
unfolding least_index swap_least
sort_loop zero xs = xs
sort_loop (suc n) [] = []
sort_loop (suc n) (x ∷ xs) = head_then (sort_loop n) (swap_least x xs (least_index xs 1 0 x.mem))

-- The second loop: `top` is the source's `end`, and false is its return of -1.
unfoldable pub no_overlap : ℕ → List KexecSegment → Bool
no_overlap top [] = true
no_overlap top (s ∷ rest) =
    if ltb s.mem top then false else no_overlap ((s.mem + s.memsz) % word) rest

-- The sorted segments, and whether the source returns 0.
unfoldable pub sort_segments : KexecInfo → KexecInfo × Bool
unfolding sort_loop no_overlap
sort_segments info =
    let sorted = sort_loop (length info.segment) info.segment in
    (record info { segment = sorted }, no_overlap 0 sorted)
