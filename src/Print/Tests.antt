-- ===== src/Print/Tests.antt =====
-- Runs of the formatted output, and instances of what is proved of it.
use buaa_mips_os.Base.{◌≡◌, refl, true, false, arith}
use buaa_mips_os.Print.{fill, reverse, place, put_digits, Buf, print_num}
use buaa_mips_os.Print.Number.{NumPrinted, print_num_lem}

abbrev blank : Buf
blank i = 0

-- "-0042": the sign stands before the zeros.
print_num-negative :
    let b : Buf = (print_num blank 42 10 true 5 false 48 false).1 in
    (b 0 ≡ 45) × (b 1 ≡ 48) × (b 2 ≡ 48) × (b 3 ≡ 52) × (b 4 ≡ 50)
unfolding print_num put_digits place reverse fill
print_num-negative = (refl, refl, refl, refl, refl)

print_num_lem_example :
    NumPrinted blank 255 16 false 8 false 48 true (print_num blank 255 16 false 8 false 48 true)
print_num_lem_example = print_num_lem blank 255 16 false 8 false 48 true (omega arith) (omega arith)
