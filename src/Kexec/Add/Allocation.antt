-- ===== src/Kexec/Add/Allocation.antt =====
-- `add_buffer` as an allocator of memory: the abstract state says of every byte whether it is taken, and
-- forgets the order of the segments and where one ends and the next begins.
use mathlib.Core.Bool.{Bool-set}
use mathlib.Core.Logic.{∥∥₁_elim}
use mathlib.Core.List.{Perm, Permᴰ}
use monoimage.Prelude.{
  ℕ, ◌+◌, ◌-◌, ◌≤◌, ◌<◌, ◌≡◌, ◌⊎◌, refl, sym, ap, ap₂, ◌∙◌, inl, inr, Bool, true, false, ◌&&◌, ◌||◌,
  List, [], ◌∷◌, ◌++◌, ltb, leb, All, arith,
}
use monoimage.Kexec.{MemoryRange, KexecSegment, KexecInfo, Machine, returned}
use monoimage.Kexec.Range.{InRam, InCutRam→InRam}
use monoimage.Kexec.Hole.{HoleEnd, Request}
use monoimage.Kexec.Hole.Free.{IsPlaced}
use monoimage.Kexec.Hole.Place.{IsMultiple}
use monoimage.Kexec.Hole.Locate.{IsServable}
use monoimage.Kexec.Add.{add_buffer}
use monoimage.Kexec.Add.Laws.{IsPaged}
use monoimage.Kexec.Add.Buffer.{IsDisjoint, add_buffer-IsAdded}

-- Which bytes are taken.
abbrev pub Memory : Type 0
Memory = ℕ → Bool

abbrev pub in_segment : KexecSegment → Memory
in_segment s x = leb s.mem x && ltb x (s.mem + s.memsz)

abbrev pub taken : List KexecSegment → Memory
taken [] x = false
taken (s ∷ rest) x = in_segment s x || taken rest x

-- One step of an allocator: at least as many bytes as were asked for, which were free and inside one
-- range of RAM, are taken, and every other byte is as before.
pub record Allocates (ram : List MemoryRange) (q : Request) (base : ℕ) (before after : Memory)
    : Type 0 where
  pub room : ℕ
  pub enough : q.size ≤ room
  pub in_ram : InRam ram base (base + room - 1)
  pub bounds : (q.least ≤ base) × (base + q.size ≤ q.most)
  pub was_free : (x : ℕ) → base ≤ x → x < base + room → before x ≡ false
  pub is_taken : (x : ℕ) → base ≤ x → x < base + room → after x ≡ true
  pub unchanged : (x : ℕ) → (x < base) ⊎ (base + room ≤ x) → after x ≡ before x

or_swap : (a b c : Bool) → (a || (b || c)) ≡ (b || (a || c))
or_swap a b c = ground arith

or_true : (a b : Bool) → b ≡ true → (a || (b || false)) ≡ true
or_true a b h = ground (arith, h)

or_false : (a b : Bool) → b ≡ false → (a || (b || false)) ≡ a
or_false a b h = ground (arith, h)

inside_segment :
    (s : KexecSegment) (x : ℕ) → s.mem ≤ x → x < s.mem + s.memsz → in_segment s x ≡ true
inside_segment s x from to = ground (arith, from, to)

outside_segment :
    (s : KexecSegment) (x : ℕ) → (x < s.mem) ⊎ (s.mem + s.memsz ≤ x) → in_segment s x ≡ false
outside_segment s x (inl h) = ground (arith, h)
outside_segment s x (inr h) = ground (arith, h)

taken-Permᴰ : (x : ℕ) {xs ys : List KexecSegment} → Permᴰ xs ys → taken xs x ≡ taken ys x
taken-Permᴰ x Permᴰ.nil = refl
taken-Permᴰ x (Permᴰ.cons e d) = ap₂ (λ s b. in_segment s x || b) e (taken-Permᴰ x d)
taken-Permᴰ x (Permᴰ.swap {a = a} {b = b} {a' = a'} {b' = b'} {l = l} e g) =
    or_swap (in_segment a x) (in_segment b x) (taken l x)
    ∙ ap₂ (λ s t. in_segment s x || (in_segment t x || taken l x)) g e
taken-Permᴰ x (Permᴰ.trans d e) = taken-Permᴰ x d ∙ taken-Permᴰ x e

taken-Perm : (x : ℕ) {xs ys : List KexecSegment} → Perm xs ys → taken xs x ≡ taken ys x
taken-Perm x {xs} {ys} p = ∥∥₁_elim p (Bool-set (taken xs x) (taken ys x)) (λ d. taken-Permᴰ x d)

taken-append : (xs ys : List KexecSegment) (x : ℕ) → taken (xs ++ ys) x ≡ (taken xs x || taken ys x)
taken-append [] ys x = refl
taken-append (s ∷ xs) ys x = ground (arith, taken-append xs ys x)

taken-IsDisjoint :
    (new : KexecSegment) (xs : List KexecSegment) (x : ℕ)
    → All (IsDisjoint new) xs
    → new.mem ≤ x
    → x < new.mem + new.memsz
    → taken xs x ≡ false
taken-IsDisjoint new [] x h from to = refl
taken-IsDisjoint new (s ∷ xs) x (inl a, h) from to =
    ground (arith, a, taken-IsDisjoint new xs x h from to)
taken-IsDisjoint new (s ∷ xs) x (inr a, h) from to =
    ground (arith, a, taken-IsDisjoint new xs x h from to)

-- `add_buffer` refines the allocator: where it returns for a size other than 0, it takes one piece of
-- memory at the address that it returns, and what else is taken does not change. The ranges of RAM in the
-- memory map are in order and end below 4G by more than the alignment, which is a power of two to which
-- the least addresses can be rounded up; the old segments are inside RAM and begin on a page, and a page
-- has a power of two of bytes.
pub add_buffer-Allocates :
    (m : Machine) (old info : KexecInfo) (buf bufsz : ℕ) (q : Request) (e : HoleEnd) (base : ℕ)
    → IsServable m q
    → IsPaged m
    → All (IsPlaced m.memory_range) old.segment
    → All (λ s. IsMultiple m.page_size s.mem) old.segment
    → 0 < q.size
    → add_buffer m old buf bufsz q e ≡ returned (info, base)
    → Allocates m.memory_range q base (taken old.segment) (taken info.segment)
add_buffer-Allocates m old info buf bufsz q e base ok p placed paged pos h =
    let a = add_buffer-IsAdded m old info buf bufsz q e base ok p placed paged pos h in
    let n = a.is_new in
    let at : a.new.mem ≡ base = n.at_base.1 in
    let after : (x : ℕ)
        → taken info.segment x ≡ (taken old.segment x || (in_segment a.new x || false)) =
      λ x.
        ap (λ xs. taken xs x) a.made
        ∙ taken-append a.sorted (a.new ∷ []) x
        ∙ ap (λ b. b || (in_segment a.new x || false)) (taken-Perm x a.perm) in
    record {
      room = a.new.memsz;
      enough = n.rounded.1;
      in_ram = InCutRam→InRam m.memory_range base (base + a.new.memsz - 1) ok.low n.usable.in_ram;
      bounds = (a.bounds.0, a.bounds.1);
      was_free = λ x from to.
          sym (taken-Perm x a.perm)
          ∙ taken-IsDisjoint a.new a.sorted x a.disjoint (omega (arith, at, from))
              (omega (arith, at, to));
      is_taken = λ x from to.
          after x
          ∙ or_true _ _ (inside_segment a.new x (omega (arith, at, from)) (omega (arith, at, to)));
      unchanged = λ x out.
          after x
          ∙ or_false _ _ (
              outside_segment a.new x (elim out [
                | inl low ↦ inl (omega (arith, at, low))
                | inr high ↦ inr (omega (arith, at, high))
              ]));
    }
