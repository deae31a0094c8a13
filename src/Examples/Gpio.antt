-- ===== src/Examples/Gpio.antt =====
-- `gpio 4 on` with all registers 0.
use monoimage.Prelude.{◌≡◌, refl, true, [], ◌∷◌, Bytes, codes, arith}
use monoimage.CStr.{strncmp_eq}
use monoimage.Gpio.{ℤ, pos, Registers, written, main}
use monoimage.Gpio.Lines.{IsWritten, main-IsWritten}

abbrev atoi : Bytes → ℤ
atoi text = pos 4

abbrev clear : Registers
clear = record { function = 0; direction = 0; values = 0 }

main-IsWritten_example :
    (r' : Registers) × (main atoi true (codes "4" ∷ codes "on" ∷ []) clear ≡ written r')
    × IsWritten 4 (strncmp_eq (codes "on") (codes "on") 2) clear r'
main-IsWritten_example = main-IsWritten atoi (codes "4") (codes "on") 4 clear refl (omega arith)

-- The fifth line is bit 21.
fifth_line :
    main atoi true (codes "4" ∷ codes "on" ∷ []) clear
    ≡ written (record { function = 0; direction = 6298592; values = 2097152 })
unfolding main strncmp_eq
fifth_line = refl
