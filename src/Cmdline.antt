-- ===== src/Cmdline.antt =====
-- The kernel command line: `get_cmdline_var` of linuxrc/linuxrc.c, of which monoboot/monoinit.c has a
-- copy, fgets, and the line that `monoimage_load` of
-- kexec-tools/kexec/arch/i386/kexec-monoimage.c hands to the new kernel.
pub mod Laws
pub mod Absent
pub mod Handover
use monoimage.Prelude.{
  ℕ, zero, suc, ◌==◌, ◌+◌, ◌-◌, Bool, true, false, Option, none, some, List, [], ◌∷◌, ◌++◌, ltb,
  if◌then◌else◌, Bytes, codes, length, take, drop,
}
use monoimage.CStr.{strstr}

-- A pointer to a variable's value: NULL, a copy of the value, or a copy made from a pointer that
-- has run past the end of the line, which is undefined.
pub data CmdlineVar : Type 0 where
  null : CmdlineVar
  value : Bytes → CmdlineVar
  past_end : CmdlineVar

-- fgets with an array of `size` bytes: at most size - 1 bytes, to the end of the first line.
unfoldable pub read_line : ℕ → Bytes → Bytes
read_line zero s = []
read_line (suc n) [] = []
read_line (suc n) (b ∷ s) = let rest = read_line n s in if b == 10 then b ∷ [] else b ∷ rest

unfoldable pub fgets : ℕ → Bytes → Bytes
unfolding read_line
fgets size s = read_line (size - 1) s

-- The distance from the start of the variable to the first space, else to the first newline.
unfoldable pub end_offset : Bytes → Option ℕ
end_offset start = elim (strstr start (codes " ")) [
  | some t ↦ some (length start - length t)
  | none ↦ elim (strstr start (codes "\n")) [
    | some t ↦ some (length start - length t)
    | none ↦ none
  ]
]

-- strndup(start, n), where the length that the source computes is `end_ptr - start_ptr`: if the end
-- is NULL or lies before the value, the length wraps to a huge `size_t`, and all is copied.
unfoldable pub copy_value : Bytes → ℕ → Option ℕ → CmdlineVar
copy_value start skip none = value (drop skip start)
copy_value start skip (some n) =
    if ltb n skip then value (drop skip start) else value (take (n - skip) (drop skip start))

-- The value begins one byte after the name, where the = should be.
unfoldable pub var_at : Bytes → Bytes → CmdlineVar
var_at start var =
    if ltb (length start) (length var + 1)
    then past_end
    else copy_value start (length var + 1) (end_offset start)

unfoldable pub get_cmdline_var : Bytes → Bytes → CmdlineVar
get_cmdline_var cmdline var = elim (strstr cmdline var) [
  | none ↦ null
  | some start ↦ var_at start var
]

-- The line that `monoimage_load` prints, with the text of --command-line if there is one.
unfoldable pub load_line : Option Bytes → (image images_uuid config_uuid : Bytes) → Bytes
load_line (some append) image images_uuid config_uuid =
    codes "root=/dev/loop0 ro "
    ++ (append
        ++ (codes " F="
            ++ (image ++ (codes " I=" ++ (images_uuid ++ (codes " C=" ++ config_uuid))))))
load_line none image images_uuid config_uuid =
    codes "root=/dev/loop0 ro F="
    ++ (image ++ (codes " I=" ++ (images_uuid ++ (codes " C=" ++ config_uuid))))
