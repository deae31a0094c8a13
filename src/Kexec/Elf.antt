-- ===== src/Kexec/Elf.antt =====
-- kexec-tools/kexec/kexec-elf.c: how a file becomes the headers in memory. The structures of the file
-- (kexec-tools/include/elf.h) are in Elf/Layout, the tables in Elf/Tables, the notes in Elf/Notes.
-- A file is the bytes in the buffer and their address. The machine that kexec runs on is
-- little-endian, and an `unsigned long` has 32 bits.
pub mod Layout
pub mod Tables
pub mod Notes
pub mod Info
pub mod Bounds
pub mod Within
pub mod Walk
pub mod Exec
pub mod X86
pub mod Rel
use monoimage.Prelude.{ℕ, zero, suc, List, ◌≡◌, refl, ap, Bytes, Option, arith}
use monoimage.Kexec.{Die}

pub record ElfFile : Type 0 where
  pub buf : Bytes
  pub address : ℕ

-- How a function ends: with a result, with -1, by an access outside the buffer or through NULL, by
-- `die`, or its loop has not ended on the fuel that it had.
pub data Parsed {ℓ} (A : Type ℓ) : Type ℓ where
  parsed : A → Parsed A
  rejected : Parsed A
  faults : Parsed A
  exits : Die → Parsed A
  endless : Parsed A

infixl 5 ◌>>=◌
abbrev pub ◌>>=◌ {ℓ κ} : {A : Type ℓ} {B : Type κ} → Parsed A → (A → Parsed B) → Parsed B
parsed a >>= f = f a
rejected >>= f = rejected
faults >>= f = faults
exits d >>= f = exits d
endless >>= f = endless

-- The two parts of a run that has a result.
pub >>=-eq-parsed {ℓ κ} :
    {A : Type ℓ} {B : Type κ} (m : Parsed A) (f : A → Parsed B) {b : B}
    → (m >>= f) ≡ parsed b
    → (a : A) × (m ≡ parsed a) × (f a ≡ parsed b)
>>=-eq-parsed (parsed a) f h = (a, refl, h)
>>=-eq-parsed rejected f h = cc
>>=-eq-parsed faults f h = cc
>>=-eq-parsed (exits d) f h = cc
>>=-eq-parsed endless f h = cc

pub parsed_inj {ℓ} : {A : Type ℓ} {a b : A} → parsed a ≡ parsed b → a ≡ b
parsed_inj {a} h = ap (λ m. elim m [ parsed x ↦ x | _ ↦ a ]) h

-- `struct mem_phdr`; `p_data` is the address of the bytes in this process.
pub record MemPhdr : Type 0 where
  pub p_paddr : ℕ
  pub p_vaddr : ℕ
  pub p_filesz : ℕ
  pub p_memsz : ℕ
  pub p_offset : ℕ
  pub p_data : ℕ
  pub p_type : ℕ
  pub p_flags : ℕ
  pub p_align : ℕ

-- `struct mem_shdr`
pub record MemShdr : Type 0 where
  pub sh_name : ℕ
  pub sh_type : ℕ
  pub sh_flags : ℕ
  pub sh_addr : ℕ
  pub sh_offset : ℕ
  pub sh_size : ℕ
  pub sh_link : ℕ
  pub sh_info : ℕ
  pub sh_addralign : ℕ
  pub sh_entsize : ℕ
  pub sh_data : ℕ

-- `struct mem_note`; the name and the text of the note by their addresses.
pub record MemNote : Type 0 where
  pub n_type : ℕ
  pub n_descsz : ℕ
  pub n_name : ℕ
  pub n_desc : ℕ

-- `struct mem_ehdr`; a table that was not read is NULL, here `none`. The number of notes is the
-- length of `e_note`, and the address of a loaded object (`rel_addr`) is not used here.
pub record MemEhdr : Type 0 where
  pub ei_class : ℕ
  pub ei_data : ℕ
  pub e_type : ℕ
  pub e_machine : ℕ
  pub e_version : ℕ
  pub e_flags : ℕ
  pub e_phnum : ℕ
  pub e_shnum : ℕ
  pub e_shstrndx : ℕ
  pub e_entry : ℕ
  pub e_phoff : ℕ
  pub e_shoff : ℕ
  pub e_phdr : Option (List MemPhdr)
  pub e_shdr : Option (List MemShdr)
  pub e_note : List MemNote
