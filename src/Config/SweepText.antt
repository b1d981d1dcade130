-- ===== src/Config/SweepText.antt =====
-- The text of one sweep and the number of its runs: src/core/config/sweep_utils.cpp and
-- src/core/config/sweep_utils.h.
mod Cuts
pub mod Printed
pub mod Count
mod Tests
use mac_os_memory_benchmark.Common.{
  ℕ, zero, suc, ◌+◌, Bool, true, false, ◌||◌, List, [], ◌∷◌, ◌==◌, if◌then◌else◌, length, size_max,
}
use mac_os_memory_benchmark.Common.Bytes.{Bytes}
use mac_os_memory_benchmark.Common.Results.{Result, ok, err}
use mac_os_memory_benchmark.Numeric.{saturating_multiply}

pub data Cut : Type 0 where
  whole : Bytes → Cut
  parts : Bytes → Bytes → Cut

unfoldable pub prepend : ℕ → Cut → Cut
prepend c (whole s) = whole (c ∷ s)
prepend c (parts before after) = parts (c ∷ before) after

-- `find(byte)`, and the `substr` on each side of it.
unfoldable pub cut : ℕ → Bytes → Cut
cut byte [] = whole []
cut byte (c ∷ s) = if c == byte then parts [] s else prepend c (cut byte s)

-- The `while` loop over the commas: each round takes one value off the text that is left.
unfoldable pub split_values : ℕ → Bytes → List Bytes
split_values zero text = []
split_values (suc fuel) text = elim (cut b',' text) [
  | whole value ↦ value ∷ []
  | parts value rest ↦ value ∷ split_values fuel rest
]

pub record ParsedSweepText : Type 0 where
  pub key : Bytes
  pub values : List Bytes

pub data SweepTextError : Type 0 where
  bad_syntax empty_value : SweepTextError

abbrev is_empty : Bytes → Bool
is_empty [] = true
is_empty (c ∷ s) = false

unfoldable pub any_empty : List Bytes → Bool
any_empty [] = false
any_empty (value ∷ values) = is_empty value || any_empty values

unfoldable pub checked_values : Bytes → List Bytes → Result SweepTextError ParsedSweepText
checked_values key values =
    if any_empty values then err empty_value else ok (record { key = key; values = values })

unfoldable pub parse_sweep_text : Bytes → Result SweepTextError ParsedSweepText
parse_sweep_text specification = elim (cut b'=' specification) [
  | whole _ ↦ err bad_syntax
  | parts key value_text ↦
      if is_empty key || is_empty value_text
      then err bad_syntax
      else checked_values key (split_values (length value_text + 1) value_text)
]

-- The template over a range of dimensions and their cardinality.
unfoldable pub cartesian_run_count_from {ℓ} : {D : Type ℓ} → (D → ℕ) → List D → ℕ → ℕ
cartesian_run_count_from cardinality [] run_count = run_count
cartesian_run_count_from cardinality (dimension ∷ dimensions) run_count =
    let next = saturating_multiply run_count (cardinality dimension) in
    let rest = cartesian_run_count_from cardinality dimensions next in
    if cardinality dimension == 0 then 0 else if next == size_max then next else rest

pub calculate_cartesian_run_count : List ℕ → ℕ
calculate_cartesian_run_count dimension_sizes =
    cartesian_run_count_from (λ dimension_size. dimension_size) dimension_sizes 1
