-- ===== src/Numbers/Tests.antt =====
-- Numbers at concrete texts (lib/libalpm/util.c).
use dulge.Base.{◌≡◌, refl, codes, arith}
use dulge.Numbers.{pos, negsuc, strtoofft, parsedate, digits_onto, decimal, print_int}
use dulge.Numbers.Decimal.{strtoofft-decimal, parsedate-print_int}

run : Unit {0}
unfolding strtoofft parsedate digits_onto decimal print_int
run = tt

-- A sign is no digit.
signed_size : strtoofft (codes "-5") ≡ negsuc 0
unfolding run
signed_size = refl

trailing_date : parsedate (codes "12 ") ≡ pos 0
unfolding run
trailing_date = refl

-- 2 ^ 63 comes out as -2 ^ 63.
strtoofft-decimal_example : strtoofft (decimal 9223372036854775808) ≡ negsuc 9223372036854775807
strtoofft-decimal_example = strtoofft-decimal 9223372036854775808

parsedate-print_int_example : parsedate (print_int (negsuc 41)) ≡ negsuc 41
parsedate-print_int_example = parsedate-print_int (negsuc 41) (omega arith)
