-- ===== src/CommandLine/General/Settings.antt =====
-- The settings that the parser keeps in range, and the numbers that it reads.
use mathlib.Core.Path.{subst}
use mac_os_memory_benchmark.Common.{
  ℕ, ◌≤◌, ◌≡◌, ◌≢◌, ◌⊎◌, arith, Bool, false, List, [], ◌∷◌, ◌++◌, int_max,
}
use mac_os_memory_benchmark.Common.Bytes.{Bytes}
use mac_os_memory_benchmark.Common.Int.{ℤ, pos, negsuc, pos_part}
use mac_os_memory_benchmark.Common.Results.{ok, bind-ok}
use mac_os_memory_benchmark.Config.{SweepSpec, BenchmarkConfig}
use mac_os_memory_benchmark.CommandLine.{ValueError, parse_signed_decimal_or_throw}
use mac_os_memory_benchmark.CommandLine.Specs.{bad_count, bad_locality, max_locality_kb}
use mac_os_memory_benchmark.CommandLine.General.{number_in, bad_positive}

abbrev pub IsCount : ℕ → Type 0
IsCount n = (1 ≤ n) × (n ≤ int_max)

-- The settings that the parser itself keeps in range.
pub record IsSound (c : BenchmarkConfig) : Type 0 where
  pub iterations_count : IsCount c.iterations
  pub loops_count : IsCount c.loop_count
  pub samples_count : IsCount c.latency_sample_count
  pub some_stride : 1 ≤ c.latency_stride_bytes
  pub some_runs : 1 ≤ c.sweep_max_runs
  pub one_mode : (c.run_benchmark ≡ false) ⊎ (c.run_patterns ≡ false)
  pub sweeps : (c.run_sweep ≡ false) ⊎ (c.sweep_specs ≢ [])

number_in-ok :
    (bad : ℤ → Bool) (error : ValueError) (value : Bytes) (n : ℕ)
    → number_in bad error value ≡ ok n
    → (z : ℤ) × (bad z ≡ false) × (pos_part z ≡ n)
unfolding number_in
number_in-ok bad error value n e =
    let (z, read, e1) = bind-ok (parse_signed_decimal_or_throw value) _ e in
    (z, ground arith, ground arith)

pub within_int :
    (error : ValueError) (value : Bytes) (n : ℕ)
    → number_in bad_count error value ≡ ok n
    → IsCount n
within_int error value n e =
    let (z, good, same) = number_in-ok bad_count error value n e in
    subst IsCount same (good_count z good)
  where
    good_count : (z : ℤ) → bad_count z ≡ false → IsCount (pos_part z)
    good_count (pos n) h = ground arith
    good_count (negsuc n) h = cc

pub positive_in :
    (error : ValueError) (value : Bytes) (n : ℕ) → number_in bad_positive error value ≡ ok n → 1 ≤ n
positive_in error value n e =
    let (z, good, same) = number_in-ok bad_positive error value n e in
    subst (λ k. 1 ≤ k) same (good_positive z good)
  where
    good_positive : (z : ℤ) → bad_positive z ≡ false → 1 ≤ pos_part z
    good_positive (pos n) h = ground arith
    good_positive (negsuc n) h = cc

pub locality_in :
    (error : ValueError) (value : Bytes) (n : ℕ)
    → number_in bad_locality error value ≡ ok n
    → n ≤ max_locality_kb
locality_in error value n e =
    let (z, good, same) = number_in-ok bad_locality error value n e in
    subst (λ k. k ≤ max_locality_kb) same (good_locality z good)
  where
    good_locality : (z : ℤ) → bad_locality z ≡ false → pos_part z ≤ max_locality_kb
    good_locality (pos n) h = ground arith
    good_locality (negsuc n) h = cc

pub more_specs : (specs : List SweepSpec) (spec : SweepSpec) → specs ++ spec ∷ [] ≢ []
more_specs [] spec = ground arith
more_specs (s ∷ specs) spec = ground arith
