-- ===== src/Kexec/Slurp.antt =====
-- kexec-tools/kexec/kexec.c: `slurp_file` and `slurp_decompress_file`, which read a whole file
-- whose name is given.
pub mod Whole
use monoimage.Prelude.{
  Bool, ℕ, zero, suc, ◌+◌, ◌-◌, ◌*◌, ◌%◌, ◌^◌, [], ◌++◌, ltb, ◌==◌, if◌then◌else◌, Option, none,
  some, Bytes, length,
}
use monoimage.Kexec.{word, Die, cannot_open, read_failed, close_failed, Outcome, returned, died}

-- One call of read or gzread: bytes, an interrupted call (EINTR or EAGAIN), or another error.
pub data Read : Type 0 where
  got : Bytes → Read
  again : Read
  read_error : Read

-- What the call with number `k` gives, when `progress` bytes have been read and there is room for
-- `room` more.
abbrev pub Reader : Type 0
Reader = (k progress room : ℕ) → Read

-- A loop on fuel: it ends, or the fuel is used up.
pub data Loop (A : Type 0) : Type 0 where
  ended : Outcome A → Loop A
  out_of_fuel : Loop A

-- The loop of `slurp_file`. `k` counts the calls, and `buf` is the part of the buffer that is filled.
unfoldable pub slurp_loop : (fuel size : ℕ) → Reader → (k : ℕ) → (buf : Bytes) → Loop Bytes
slurp_loop zero size reader k buf = out_of_fuel
slurp_loop (suc fuel) size reader k buf =
    let rest = slurp_loop fuel size reader (suc k) in
    if ltb (length buf) size
    then elim (reader k (length buf) (size - length buf)) [
      | got bytes ↦ rest (buf ++ bytes)
      | again ↦ rest buf
      | read_error ↦ ended (died read_failed)
    ]
    else ended (returned buf)

-- The call of close or gzclose behind the loop.
unfoldable pub and_close : (close_ok : Bool) → Loop Bytes → Loop Bytes
and_close close_ok out_of_fuel = out_of_fuel
and_close close_ok (ended (died d)) = ended (died d)
and_close close_ok (ended (returned buf)) =
    if close_ok then ended (returned buf) else ended (died close_failed)

-- A file as open and fstat show it, or gzopen, which gives no size: `none` where one of them fails.
pub record Opened : Type 0 where
  pub size : ℕ
  pub reader : Reader
  pub close_ok : Bool

pub record GzOpened : Type 0 where
  pub reader : Reader
  pub close_ok : Bool

unfoldable pub slurp_file : (fuel : ℕ) → Option Opened → Loop Bytes
unfolding slurp_loop and_close
slurp_file fuel none = ended (died cannot_open)
slurp_file fuel (some file) = and_close file.close_ok (slurp_loop fuel file.size file.reader 0 [])

-- The room that the buffer has, which is doubled where the buffer is full.
unfoldable pub grown : (size allocated : ℕ) → ℕ
grown size allocated = if size == allocated then (allocated * 2) % word else allocated

-- The loop of `slurp_decompress_file`. The `continue` after an interrupted call goes to the test
-- `result > 0` at the end of the loop, which fails for the result -1.
unfoldable pub gz_loop : (fuel : ℕ) → Reader → (k allocated : ℕ) → (buf : Bytes) → Loop Bytes
unfolding grown
gz_loop zero reader k allocated buf = out_of_fuel
gz_loop (suc fuel) reader k allocated buf =
    let room = grown (length buf) allocated in
    let rest = gz_loop fuel reader (suc k) room in
    elim (reader k (length buf) (room - length buf)) [
      | got bytes ↦ if length bytes == 0 then ended (returned buf) else rest (buf ++ bytes)
      | again ↦ ended (returned buf)
      | read_error ↦ ended (died read_failed)
    ]

unfoldable pub slurp_decompress_file : (fuel : ℕ) → Option GzOpened → Loop Bytes
unfolding gz_loop and_close
slurp_decompress_file fuel none = ended (died cannot_open)
slurp_decompress_file fuel (some file) =
    and_close file.close_ok (gz_loop fuel file.reader 0 65536 [])
