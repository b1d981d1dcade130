-- ===== src/CommandLine/Specs/Tests.antt =====
-- Specs of sweeps.
use mac_os_memory_benchmark.Common.{◌≡◌, refl, [], ◌∷◌}
use mac_os_memory_benchmark.Common.Bytes.{codes, same_bytes}
use mac_os_memory_benchmark.Common.Int.{pos}
use mac_os_memory_benchmark.Common.Results.{ok, err}
use mac_os_memory_benchmark.Config.{SweepParameter, SweepSpec}
use mac_os_memory_benchmark.Config.SweepText.{
  cut, prepend, split_values, any_empty, checked_values, parse_sweep_text,
}
use mac_os_memory_benchmark.CommandLine.{
  buffersize_invalid, sweep_parameter_from_string, scan_digits, scan_number, scanned,
  parse_strict_signed_decimal, parse_signed_decimal_or_throw, parse_strict_unsigned_decimal,
  parse_unsigned_decimal_or_throw, is_option,
}
use mac_os_memory_benchmark.CommandLine.Specs.{
  check_sweep_number, empty_value, number_value, parse_sweep_value, parse_sweep_values,
  parse_sweep_spec,
}
use mac_os_memory_benchmark.CommandLine.Specs.Ranges.{IsSpecOf, parse_sweep_spec-IsSpecOf}

abbrev two_sizes : SweepSpec
two_sizes = record {
  parameter = SweepParameter.buffer_size_mb;
  parameter_name = codes "buffer-size";
  values =
      record (empty_value (codes "64")) { integer_value = pos 64 }
      ∷ record (empty_value (codes "128")) { integer_value = pos 128 }
      ∷ [];
}

two_sizes_parse : parse_sweep_spec (codes "buffer-size=64,128") ≡ ok two_sizes
unfolding parse_sweep_spec parse_sweep_values parse_sweep_value number_value check_sweep_number
    parse_sweep_text cut prepend split_values any_empty checked_values sweep_parameter_from_string
    scan_digits scan_number scanned parse_strict_signed_decimal parse_signed_decimal_or_throw
    parse_strict_unsigned_decimal parse_unsigned_decimal_or_throw is_option same_bytes
two_sizes_parse = refl

negative_size_fails : parse_sweep_spec (codes "buffer-size=-1") ≡ err buffersize_invalid
unfolding parse_sweep_spec parse_sweep_values parse_sweep_value number_value check_sweep_number
    parse_sweep_text cut prepend split_values any_empty checked_values sweep_parameter_from_string
    scan_digits scan_number scanned parse_strict_signed_decimal parse_signed_decimal_or_throw
    parse_strict_unsigned_decimal parse_unsigned_decimal_or_throw is_option same_bytes
negative_size_fails = refl

parse_sweep_spec-IsSpecOf_example : IsSpecOf (codes "buffer-size=64,128") two_sizes
parse_sweep_spec-IsSpecOf_example =
    parse_sweep_spec-IsSpecOf (codes "buffer-size=64,128") two_sizes two_sizes_parse
