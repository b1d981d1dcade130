-- ===== src/CommandLine/Tests.antt =====
-- Integers of the command line.
use mac_os_memory_benchmark.Common.{◌≡◌, refl, arith}
use mac_os_memory_benchmark.Common.Bytes.{codes}
use mac_os_memory_benchmark.Common.Int.{negsuc}
use mac_os_memory_benchmark.CommandLine.{
  success, invalid, out_of_range, scan_digits, scan_number, scanned, parse_strict_signed_decimal,
}
use mac_os_memory_benchmark.CommandLine.Decimals.{print_signed, parse_strict_signed_decimal-print}

trailing_garbage : parse_strict_signed_decimal (codes "12x") ≡ invalid
unfolding parse_strict_signed_decimal scanned scan_number scan_digits
trailing_garbage = refl

too_large : parse_strict_signed_decimal (codes "9223372036854775808") ≡ out_of_range
unfolding parse_strict_signed_decimal scanned scan_number scan_digits
too_large = refl

least :
    parse_strict_signed_decimal (codes "-9223372036854775808")
    ≡ success (negsuc 9223372036854775807)
unfolding parse_strict_signed_decimal scanned scan_number scan_digits
least = refl

parse_strict_signed_decimal-print_example :
    parse_strict_signed_decimal (print_signed (negsuc 41)) ≡ success (negsuc 41)
parse_strict_signed_decimal-print_example =
    parse_strict_signed_decimal-print (negsuc 41) (omega arith)
