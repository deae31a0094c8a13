-- ===== src/Kexec/Slurp/Whole.antt =====
-- The two loops read the whole file, or part of it.
use monoimage.Prelude.{
  Bool, ℕ, zero, suc, ◌+◌, ◌-◌, ◌^◌, ◌≤◌, ◌<◌, ◌≡◌, ◌⊎◌, inl, inr, refl, sym, ap, ◌∙◌, true, false,
  some, [], ◌∷◌, ◌++◌, ltb, ◌==◌, Bytes, length, take, drop, arith, append-nil, length-take,
  length-drop, take-append-drop, append_assoc, drop-append, length-append,
}
use monoimage.Kexec.{returned}
use monoimage.Kexec.Slurp.{
  got, again, Reader, ended, out_of_fuel, slurp_loop, slurp_file, and_close, grown, gz_loop,
  slurp_decompress_file,
}

-- The reader hands out the text: while bytes are left, a call is interrupted, or it gives at least
-- one of the next bytes and at most as many as there is room for; from the call `calm` on, no call
-- is interrupted.
pub record Serves (reader : Reader) (text : Bytes) (calm : ℕ) : Type 0 where
  pub progress :
      (k p room : ℕ)
      → p < length text
      → 0 < room
      → ((reader k p room ≡ again) × (k < calm))
        ⊎ ((m : ℕ) × (0 < m) × (m ≤ room) × (reader k p room ≡ got (take m (drop p text))))

-- The reader gives no bytes at the end of the text.
pub record Ends (reader : Reader) (text : Bytes) : Type 0 where
  pub at_end : (k room : ℕ) → reader k (length text) room ≡ got []

-- A text that is read up to `front`, and what the next call can be.
rest_of : (text front back : Bytes) → text ≡ front ++ back → drop (length front) text ≡ back
rest_of text front back e = ap (drop (length front)) e ∙ drop-append front back

moved :
    (text front back : Bytes) (m : ℕ)
    → text ≡ front ++ back
    → text ≡ (front ++ take m back) ++ drop m back
moved text front back m e =
    e
    ∙ ap (◌++◌ front) (sym (take-append-drop m back))
    ∙ sym (append_assoc front (take m back) (drop m back))

module _ (reader : Reader) (text : Bytes) (calm : ℕ) (serves : Serves reader text calm) where
  -- The next call, where `back` is not read yet: it is interrupted, or gives a part of `back`.
  next_call :
      (k room : ℕ) (front back : Bytes)
      → text ≡ front ++ back
      → 0 < length back
      → 0 < room
      → ((reader k (length front) room ≡ again) × (k < calm))
        ⊎ ((m : ℕ) × (0 < m) × (m ≤ room) × (reader k (length front) room ≡ got (take m back)))
  next_call k room front back e pos h =
      let len : length text ≡ length front + length back = ap length e ∙ length-append front back in
      elim (serves.progress k (length front) room (omega arith) h) [
        | inl a ↦ inl a
        | inr (m, p, q, g) ↦ inr (m, p, q, g ∙ ap (λ b. got (take m b)) (rest_of text front back e))
      ]

  slurp_loop-whole :
      (fuel k : ℕ) (front back : Bytes)
      → text ≡ front ++ back
      → (calm - k) + length back < fuel
      → slurp_loop fuel (length text) reader k front ≡ ended (returned text)
  unfolding slurp_loop
  slurp_loop-whole zero k front back e f = absurd (omega arith)
  slurp_loop-whole (suc fuel) k front [] e f =
      let all : text ≡ front = e ∙ append-nil front in
      let stop : ltb (length front) (length text) ≡ false = ground (arith, ap length all) in
      rw stop (rw all)
  slurp_loop-whole (suc fuel) k front (x ∷ back) e f =
      let len : length text ≡ length front + length (x ∷ back) =
        ap length e ∙ length-append front (x ∷ back) in
      let go_on : ltb (length front) (length text) ≡ true = ground (arith, len) in
      elim (next_call k (length text - length front) front (x ∷ back) e (omega arith)
        (omega (arith, len))) [
          | inl (a, early) ↦
              rw (go_on, a) (slurp_loop-whole fuel (suc k) front (x ∷ back) e (omega arith))
          | inr (m, p, q, g) ↦
              rw (go_on, g)
                (slurp_loop-whole fuel (suc k) (front ++ take m (x ∷ back)) (drop m (x ∷ back))
                  (moved text front (x ∷ back) m e) (omega (arith, length-drop m (x ∷ back))))
        ]

-- `slurp_file` returns the whole file where close succeeds: a reader that serves the text of the size that fstat gave is
-- called until everything is read, and one call for each byte and for each call that may be
-- interrupted is enough.
pub slurp_file-whole :
    (reader : Reader) (text : Bytes) (calm fuel : ℕ)
    → Serves reader text calm
    → calm + length text < fuel
    → slurp_file fuel (some (record { size = length text; reader = reader; close_ok = true }))
      ≡ ended (returned text)
unfolding slurp_file and_close
slurp_file-whole reader text calm fuel s f =
    ap (and_close true) (slurp_loop-whole reader text calm s fuel 0 [] text refl (omega arith))

module _ (reader : Reader) (text : Bytes) (calm : ℕ) (serves : Serves reader text calm)
    (ends : Ends reader text) (size : ℕ) (short : length text < size) where
  slurp_loop-stuck :
      (fuel k : ℕ) (front back : Bytes)
      → text ≡ front ++ back
      → slurp_loop fuel size reader k front ≡ out_of_fuel
  unfolding slurp_loop
  slurp_loop-stuck zero k front back e = refl
  slurp_loop-stuck (suc fuel) k front [] e =
      let all : front ≡ text = sym (e ∙ append-nil front) in
      let go_on : ltb (length text) size ≡ true = ground arith in
      rw (all, go_on, ends.at_end k (size - length text))
        (slurp_loop-stuck fuel (suc k) (front ++ []) [] (e ∙ sym (append-nil (front ++ []))))
  slurp_loop-stuck (suc fuel) k front (x ∷ back) e =
      let len : length text ≡ length front + length (x ∷ back) =
        ap length e ∙ length-append front (x ∷ back) in
      let go_on : ltb (length front) size ≡ true = ground (arith, len) in
      elim (next_call reader text calm serves k (size - length front) front (x ∷ back) e
        (omega arith) (omega (arith, len))) [
          | inl (a, early) ↦ rw (go_on, a) (slurp_loop-stuck fuel (suc k) front (x ∷ back) e)
          | inr (m, p, q, g) ↦
              rw (go_on, g)
                (slurp_loop-stuck fuel (suc k) (front ++ take m (x ∷ back)) (drop m (x ∷ back))
                  (moved text front (x ∷ back) m e))
        ]

  -- `slurp_file` never ends for a file that is shorter than fstat said: at its end the reader gives
  -- no bytes, the loop calls it again, and no number of calls is enough.
  slurp_file-short :
      (fuel : ℕ) (close_ok : Bool)
      → slurp_file fuel (some (record { size = size; reader = reader; close_ok = close_ok }))
        ≡ out_of_fuel
  unfolding slurp_file and_close
  slurp_file-short fuel close_ok = ap (and_close close_ok) (slurp_loop-stuck fuel 0 [] text refl)

module _ (reader : Reader) (text : Bytes) (serves : Serves reader text 0) (ends : Ends reader text)
    (small : length text < 2 ^ 30) where
  -- There is room for at least one byte, whatever the size of the buffer.
  grown-room :
      (front allocated : ℕ)
      → front ≤ allocated
      → 0 < allocated
      → front < 2 ^ 31
      → front < grown front allocated
  unfolding grown
  grown-room front allocated h p s = ground arith

  gz_loop-whole :
      (fuel k allocated : ℕ) (front back : Bytes)
      → text ≡ front ++ back
      → length front ≤ allocated
      → 0 < allocated
      → length back < fuel
      → gz_loop fuel reader k allocated front ≡ ended (returned text)
  unfolding gz_loop
  gz_loop-whole zero k allocated front back e h p f = absurd (omega arith)
  gz_loop-whole (suc fuel) k allocated front [] e h p f =
      let all : front ≡ text = sym (e ∙ append-nil front) in
      rw (all, ends.at_end k (grown (length text) allocated - length text), gz_loop)
        (ap (λ b. ended (returned b)) all)
  gz_loop-whole (suc fuel) k allocated front (x ∷ back) e h p f =
      let len : length text ≡ length front + length (x ∷ back) =
        ap length e ∙ length-append front (x ∷ back) in
      let room = grown (length front) allocated in
      let fits : length front < grown (length front) allocated =
        grown-room (length front) allocated h p (omega (arith, len)) in
      elim (next_call reader text 0 serves k (grown (length front) allocated - length front) front
        (x ∷ back) e (omega arith) (omega arith)) [
          | inl (a, early) ↦ absurd (omega arith)
          | inr (m, pos, q, g) ↦
              let some_read : (length (take m (x ∷ back)) == 0) ≡ false =
                ground (arith, length-take m (x ∷ back)) in
              rw (g, some_read, gz_loop)
                (gz_loop-whole fuel (suc k) (grown (length front) allocated)
                  (front ++ take m (x ∷ back)) (drop m (x ∷ back)) (moved text front (x ∷ back) m e)
                  (omega (arith, length-append front (take m (x ∷ back)), length-take m (x ∷ back)))
                  (omega arith) (omega (arith, length-drop m (x ∷ back))))
        ]

  -- `slurp_decompress_file` returns the whole text of less than 1G, where no call is interrupted
  -- and gzclose succeeds:
  -- its buffer always has room for more, and one call for each byte and one for the end is enough.
  pub slurp_decompress_file-whole :
      (fuel : ℕ)
      → length text < fuel
      → slurp_decompress_file fuel (some (record { reader = reader; close_ok = true }))
        ≡ ended (returned text)
  unfolding slurp_decompress_file and_close
  slurp_decompress_file-whole fuel f =
      ap (and_close true) (gz_loop-whole fuel 0 65536 [] text refl (omega arith) (omega arith) f)
