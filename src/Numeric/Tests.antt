-- ===== src/Numeric/Tests.antt =====
-- Runs of the size arithmetic, and its theorems at concrete inputs.
use mac_os_memory_benchmark.Common.{
  ℕ, ◌+◌, ◌*◌, ◌≡◌, refl, some, true, arith, size_max, min, ltb, leb, ◌-◌, ◌/◌,
}
use mac_os_memory_benchmark.Numeric.{
  checked_add, checked_round_up, Floating, calculate_duration_scaled_count,
}
use mac_os_memory_benchmark.Numeric.Counts.{IsCount, calculate_duration_scaled_count-IsCount}

round_up_runs : checked_round_up 4097 4096 ≡ some 8192
unfolding checked_round_up checked_add
round_up_runs = refl

-- Durations in whole nanoseconds: an arithmetic that meets what the calibration asks for.
abbrev whole_nanoseconds : Floating
whole_nanoseconds = record {
  Double = ℕ;
  is_finite = λ d. true;
  is_positive = λ d. ltb 0 d;
  scaled_reaches = λ count target pilot maximum. leb (maximum * pilot) (count * target);
  scaled_ceil = λ count target pilot. min size_max ((count * target + (pilot - 1)) / pilot);
  scaled_ceil-size = λ n target pilot. omega arith;
}

calculate_duration_scaled_count-IsCount_example :
    IsCount 4 1000 4 (calculate_duration_scaled_count whole_nanoseconds 20 8 150 4 1000 4)
calculate_duration_scaled_count-IsCount_example =
    calculate_duration_scaled_count-IsCount whole_nanoseconds 20 8 150 4 1000 4
      (record {
        pilot_valid = (refl, refl);
        target_valid = (refl, refl);
        counts = (omega arith, omega arith, omega arith, omega arith);
      })
      (omega arith) (omega arith)
