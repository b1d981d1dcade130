-- ===== src/Config/SweepText/Tests.antt =====
-- The text of a sweep at concrete inputs.
use mac_os_memory_benchmark.Common.{◌≡◌, ◌↔◌, refl, [], ◌∷◌}
use mac_os_memory_benchmark.Common.Bytes.{codes}
use mac_os_memory_benchmark.Common.Results.{ok, err}
use mac_os_memory_benchmark.Numeric.{saturating_multiply, checked_multiply}
use mac_os_memory_benchmark.Config.SweepText.{
  cut, prepend, split_values, ParsedSweepText, bad_syntax, empty_value, any_empty, checked_values,
  parse_sweep_text, cartesian_run_count_from, calculate_cartesian_run_count,
}
use mac_os_memory_benchmark.Config.SweepText.Printed.{
  IsSweepText, print_sweep_text, parse_sweep_text_iff,
}

abbrev two_sizes : ParsedSweepText
two_sizes = record { key = codes "buffer-size"; values = codes "64" ∷ codes "128" ∷ [] }

two_sizes_text : parse_sweep_text (codes "buffer-size=64,128") ≡ ok two_sizes
unfolding parse_sweep_text cut prepend split_values checked_values any_empty
two_sizes_text = refl

trailing_comma : parse_sweep_text (codes "threads=1,") ≡ err empty_value
unfolding parse_sweep_text cut prepend split_values checked_values any_empty
trailing_comma = refl

no_key : parse_sweep_text (codes "=1") ≡ err bad_syntax
unfolding parse_sweep_text cut prepend
no_key = refl

six_runs : calculate_cartesian_run_count (2 ∷ 3 ∷ []) ≡ 6
unfolding calculate_cartesian_run_count cartesian_run_count_from saturating_multiply
    checked_multiply
six_runs = refl

parse_sweep_text_iff_example :
    (parse_sweep_text (codes "buffer-size=64,128") ≡ ok two_sizes)
    ↔ (IsSweepText two_sizes × (codes "buffer-size=64,128" ≡ print_sweep_text two_sizes))
parse_sweep_text_iff_example = parse_sweep_text_iff (codes "buffer-size=64,128") two_sizes
