-- ===== src/TlbSweep.antt =====
-- The sweep points of the TLB analysis: src/benchmark/tlb_sweep_planner.cpp. The labels that say
-- which detector asked for a point are left out, and with them `build_tlb_refinement_plan`, which
-- merges the points of several targets and their labels.
pub mod Sorted
pub mod Base
pub mod Bracket
pub mod Refinement
mod Tests
use mac_os_memory_benchmark.Common.{
  ℕ, zero, suc, ◌+◌, ◌-◌, ◌*◌, ◌/◌, ◌%◌, min, max, List, [], ◌∷◌, map, length, get_or, Bool, true,
  false, not, ◌&&◌, ◌||◌, ltb, leb, ◌==◌, if◌then◌else◌, size_max, add_size, sub_size, mul_size,
  iota,
}
use mac_os_memory_benchmark.Config.{TlbSweepDensity, low, medium, high, bytes_per_mb, bytes_per_kb}

abbrev pub sweep_min_locality : ℕ
sweep_min_locality = 16 * bytes_per_kb

abbrev pub sweep_max_locality : ℕ
sweep_max_locality = 256 * bytes_per_mb

abbrev pub refinement_subdivisions : ℕ
refinement_subdivisions = 8

-- `kLocalitySweepLowBytes`, in KiB.
abbrev low_kb : List ℕ
low_kb =
    16 ∷ 64 ∷ 128 ∷ 256 ∷ 512 ∷ 1024 ∷ 2048 ∷ 4096 ∷ 8192 ∷ 12288 ∷ 16384 ∷ 32768 ∷ 65536 ∷ 131072
    ∷ 262144 ∷ []

-- `kLocalitySweepHighBytes`, in KiB.
abbrev high_kb : List ℕ
high_kb =
    16 ∷ 32 ∷ 64 ∷ 96 ∷ 128 ∷ 192 ∷ 256 ∷ 384 ∷ 512 ∷ 768 ∷ 1024 ∷ 1536 ∷ 2048 ∷ 3072 ∷ 4096 ∷ 6144
    ∷ 8192 ∷ 10240 ∷ 12288 ∷ 14336 ∷ 16384 ∷ 24576 ∷ 32768 ∷ 49152 ∷ 65536 ∷ 98304 ∷ 131072 ∷ 196608
    ∷ 262144 ∷ []

pub canonical_localities : TlbSweepDensity → List ℕ
canonical_localities high = map (λ kb. kb * bytes_per_kb) high_kb
canonical_localities _ = map (λ kb. kb * bytes_per_kb) low_kb

pub calculate_min_sweep_locality : ℕ → ℕ
calculate_min_sweep_locality stride_bytes =
    if ltb (size_max / 2) stride_bytes
    then size_max
    else max sweep_min_locality (mul_size 2 stride_bytes)

pub align_up : ℕ → ℕ → ℕ
align_up value alignment =
    if alignment == 0
    then value
    else if value % alignment == 0
    then value
    else (let increment = alignment - value % alignment in
        if ltb (size_max - increment) value then size_max else add_size value increment)

pub bounded_double : ℕ → ℕ → ℕ
bounded_double value maximum =
    if ltb (size_max / 2) value then maximum else min maximum (mul_size value 2)

pub record TlbSweepPoint : Type 0 where
  pub point_index : ℕ
  pub requested_pages : ℕ
  pub effective_pages : ℕ
  pub locality_bytes : ℕ
  pub stride_bytes : ℕ
  pub pointer_count : ℕ
  pub bracket_lower_bytes : ℕ
  pub bracket_upper_bytes : ℕ

pub make_point : ℕ → ℕ → ℕ → ℕ → ℕ → TlbSweepPoint
make_point locality_bytes stride_bytes page_size_bytes bracket_lower_bytes bracket_upper_bytes =
    let pages = if page_size_bytes == 0 then 0 else locality_bytes / page_size_bytes in
    record {
      point_index = 0;
      requested_pages = pages;
      effective_pages = pages;
      locality_bytes = locality_bytes;
      stride_bytes = stride_bytes;
      pointer_count = pages;
      bracket_lower_bytes = bracket_lower_bytes;
      bracket_upper_bytes = bracket_upper_bytes;
    }

-- `std::sort` and `std::unique`: each value once, in ascending order.
pub insert_unique : ℕ → List ℕ → List ℕ
insert_unique x [] = x ∷ []
insert_unique x (y ∷ ys) =
    let rest = insert_unique x ys in
    if ltb x y then x ∷ y ∷ ys else if x == y then y ∷ ys else y ∷ rest

pub sort_unique : List ℕ → List ℕ
unfolding insert_unique
sort_unique [] = []
sort_unique (x ∷ xs) = insert_unique x (sort_unique xs)

-- The loop that collects the localities.
pub collect_localities : ℕ → ℕ → List ℕ → List ℕ
collect_localities min_locality page_size_bytes [] = []
collect_localities min_locality page_size_bytes (c ∷ cs) =
    let rest = collect_localities min_locality page_size_bytes cs in
    if leb min_locality c
      && leb c sweep_max_locality
      && leb (align_up c page_size_bytes) sweep_max_locality
    then align_up c page_size_bytes ∷ rest
    else rest

-- The loops that make the points and number them from `index` on.
pub numbered_points : ℕ → ℕ → ℕ → List ℕ → List TlbSweepPoint
unfolding make_point
numbered_points stride_bytes page_size_bytes index [] = []
numbered_points stride_bytes page_size_bytes index (locality ∷ rest) =
    record (make_point locality stride_bytes page_size_bytes locality locality) {
      point_index = index;
    }
    ∷ numbered_points stride_bytes page_size_bytes (index + 1) rest

-- The localities of the base grid; `sizeof(uintptr_t)` is 8.
pub base_localities : ℕ → ℕ → TlbSweepDensity → List ℕ
unfolding calculate_min_sweep_locality canonical_localities collect_localities sort_unique
base_localities stride_bytes page_size_bytes density =
    let min_locality = align_up (calculate_min_sweep_locality stride_bytes) page_size_bytes in
    if stride_bytes == 0
      || page_size_bytes == 0
      || not (stride_bytes % 8 == 0)
      || ltb page_size_bytes stride_bytes
      || ltb page_size_bytes 8
      || ltb sweep_max_locality min_locality
    then []
    else sort_unique (
        min_locality
        ∷ collect_localities min_locality page_size_bytes (canonical_localities density))

pub build_tlb_base_sweep_plan : ℕ → ℕ → TlbSweepDensity → List TlbSweepPoint
unfolding base_localities numbered_points
build_tlb_base_sweep_plan stride_bytes page_size_bytes density =
    numbered_points stride_bytes page_size_bytes 0
      (base_localities stride_bytes page_size_bytes density)

-- `std::find`
pub contains : List ℕ → ℕ → Bool
contains [] x = false
contains (y ∷ ys) x = if x == y then true else contains ys x

-- The candidate of one step, rounded down to the alignment.
pub refinement_candidate : ℕ → ℕ → ℕ → ℕ → ℕ
refinement_candidate lower upper alignment step =
    let raw = add_size lower (mul_size (upper - lower) step / refinement_subdivisions) in
    raw - raw % alignment

-- The bracket of a boundary: its neighbours, or the ends of the range.
pub bracket_lower : List ℕ → ℕ → ℕ → ℕ
bracket_lower localities zero min_locality = min_locality
bracket_lower localities (suc previous) min_locality = get_or localities previous 0

pub bracket_upper : List ℕ → ℕ → ℕ → ℕ
unfolding bounded_double
bracket_upper localities boundary_index max_locality =
    if ltb (boundary_index + 1) (length localities)
    then get_or localities (boundary_index + 1) 0
    else bounded_double (get_or localities boundary_index 0) max_locality

module _ (localities : List ℕ) (lower upper min_locality max_locality alignment : ℕ) where
  -- The loop over the steps.
  pub collect_candidates : List ℕ → List ℕ
  unfolding refinement_candidate contains
  collect_candidates [] = []
  collect_candidates (step ∷ steps) =
      let candidate = refinement_candidate lower upper alignment step in
      let rest = collect_candidates steps in
      if ltb lower candidate
        && ltb candidate upper
        && leb min_locality candidate
        && leb candidate max_locality
        && not (contains localities candidate)
      then candidate ∷ rest
      else rest

pub build_tlb_refinement_points : List ℕ → ℕ → ℕ → ℕ → ℕ → List ℕ
unfolding bracket_lower bracket_upper collect_candidates sort_unique
build_tlb_refinement_points localities boundary_index min_locality max_locality alignment =
    let lower = bracket_lower localities boundary_index min_locality in
    let upper = bracket_upper localities boundary_index max_locality in
    if leb (length localities) boundary_index || alignment == 0 || leb upper lower
    then []
    else sort_unique (
        collect_candidates localities lower upper min_locality max_locality alignment
          (iota 1 (refinement_subdivisions - 1)))

pub tlb_point_localities : List TlbSweepPoint → List ℕ
tlb_point_localities [] = []
tlb_point_localities (p ∷ ps) = p.locality_bytes ∷ tlb_point_localities ps
