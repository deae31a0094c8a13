-- ===== src/Kexec/ArchOptions/Valid.antt =====
-- The values that the options of the console can have.
use monoimage.Prelude.{
  ℕ, ◌%◌, ◌≤◌, ◌<◌, ◌≡◌, ◌⊎◌, inl, inr, refl, true, List, [], ◌∷◌, ◌==◌, Bytes, arith,
}
use monoimage.Kexec.ArchOptions.{
  ArchOpt, reset_vga, console_vga, console_serial, serial, serial_baud, other, ArchOptions, Strtoul,
  serial_port, Processed, processed, bad_option, crashed, set_port, set_baud, process_option,
  arch_process_options,
}

-- The port is a 16-bit number, and the rate is not set or divides 115200 and is at least 9600.
pub record IsValid (o : ArchOptions) : Type 0 where
  pub port : o.base < 65536
  pub rate : (o.baud ≡ 0) ⊎ ((9600 ≤ o.baud) × (o.baud ≤ 115200) × (115200 % o.baud ≡ 0))

set_port-IsValid :
    (value : ℕ) (o o' : ArchOptions) → IsValid o → set_port value o ≡ processed o' → IsValid o'
unfolding set_port
set_port-IsValid value o o' v h = record {
  port = ground (arith, h);
  rate = ground (arith, h, v.rate);
}

set_baud-cases :
    (value : ℕ) (rest : Bytes) (o o' : ArchOptions)
    → set_baud value rest o ≡ processed o'
    → (o' ≡ record o { baud = value })
      × (value ≤ 115200)
      × (9600 ≤ value)
      × ((115200 % value == 0) ≡ true)
unfolding set_baud
set_baud-cases value rest o o' h =
    (ground (arith, h), ground (arith, h), ground (arith, h), ground (arith, h))

set_baud-IsValid :
    (value : ℕ) (rest : Bytes) (o o' : ArchOptions)
    → IsValid o
    → set_baud value rest o ≡ processed o'
    → IsValid o'
set_baud-IsValid value rest o o' v h =
    let (made, most, least, divides) = set_baud-cases value rest o o' h in
    let exact : 115200 % value ≡ 0 = ground (arith, divides) in
    rw made (record { port = v.port; rate = inr (least, most, exact) })

process_option-IsValid :
    (strtoul : Strtoul) (x : ArchOpt) (o o' : ArchOptions)
    → IsValid o
    → process_option strtoul x o ≡ processed o'
    → IsValid o'
unfolding process_option
process_option-IsValid strtoul reset_vga o o' v h = ground (arith, h, v)
process_option-IsValid strtoul console_vga o o' v h = ground (arith, h, v)
process_option-IsValid strtoul console_serial o o' v h = ground (arith, h, v)
process_option-IsValid strtoul (serial arg) o o' v h =
    set_port-IsValid (serial_port strtoul arg) o o' v h
process_option-IsValid strtoul (serial_baud arg) o o' v h =
    set_baud-IsValid (strtoul arg 0).0 (strtoul arg 0).1 o o' v h
process_option-IsValid strtoul other o o' v h = ground (arith, h, v)

Processed-cases :
    (r : Processed) → ((o : ArchOptions) × (r ≡ processed o)) ⊎ (r ≡ bad_option) ⊎ (r ≡ crashed)
Processed-cases (processed o) = inl (o, refl)
Processed-cases bad_option = inr (inl refl)
Processed-cases crashed = inr (inr refl)

-- Whatever the options and the numbers that strtoul reads, the port that is kept is a 16-bit number,
-- and the rate is not set or divides 115200 and is at least 9600.
arch_process_options-IsValid :
    (strtoul : Strtoul) (xs : List ArchOpt) (o o' : ArchOptions)
    → IsValid o
    → arch_process_options strtoul xs o ≡ processed o'
    → IsValid o'
unfolding arch_process_options
arch_process_options-IsValid strtoul [] o o' v h = ground (arith, h, v)
arch_process_options-IsValid strtoul (x ∷ xs) o o' v h =
    elim (Processed-cases (process_option strtoul x o)) [
      | inl (p, e) ↦
          arch_process_options-IsValid strtoul xs p o' (process_option-IsValid strtoul x o p v e)
            (rw (e, arch_process_options) at h)
      | inr (inl e) ↦ absurd (ground (arith, h, e))
      | inr (inr e) ↦ absurd (ground (arith, h, e))
    ]
