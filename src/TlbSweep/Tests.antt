-- ===== src/TlbSweep/Tests.antt =====
-- The theorems of the sweep planner at concrete inputs.
use mac_os_memory_benchmark.Common.{◌≡◌, ◌↔◌, true, refl, arith, All, [], ◌∷◌}
use mac_os_memory_benchmark.Config.{low}
use mac_os_memory_benchmark.TlbSweep.{
  bracket_lower, bracket_upper, bounded_double, refinement_candidate, contains, collect_candidates,
  insert_unique, sort_unique, build_tlb_base_sweep_plan, build_tlb_refinement_points,
  tlb_point_localities,
}
use mac_os_memory_benchmark.TlbSweep.Sorted.{StrictlySorted}
use mac_os_memory_benchmark.TlbSweep.Base.{
  IsLocality, ArePoints, build_tlb_base_sweep_plan-ArePoints,
}
use mac_os_memory_benchmark.TlbSweep.Refinement.{IsPoint, build_tlb_refinement_points_iff}

refined :
    build_tlb_refinement_points (1024 ∷ 2048 ∷ 4096 ∷ []) 1 1024 8192 512
    ≡ 1536 ∷ 2560 ∷ 3072 ∷ 3584 ∷ []
unfolding build_tlb_refinement_points bracket_lower bracket_upper bounded_double collect_candidates
    refinement_candidate contains sort_unique insert_unique
refined = refl

build_tlb_base_sweep_plan-ArePoints_example :
    ArePoints 128 16384 0 (build_tlb_base_sweep_plan 128 16384 low)
    × All (IsLocality 128 16384) (tlb_point_localities (build_tlb_base_sweep_plan 128 16384 low))
    × StrictlySorted (tlb_point_localities (build_tlb_base_sweep_plan 128 16384 low))
build_tlb_base_sweep_plan-ArePoints_example =
    build_tlb_base_sweep_plan-ArePoints 128 16384 low (omega arith)

build_tlb_refinement_points_iff_example :
    StrictlySorted (build_tlb_refinement_points (1024 ∷ 2048 ∷ 4096 ∷ []) 1 1024 8192 512)
    × ((contains (build_tlb_refinement_points (1024 ∷ 2048 ∷ 4096 ∷ []) 1 1024 8192 512) 2560
          ≡ true)
        ↔ IsPoint (1024 ∷ 2048 ∷ 4096 ∷ []) 1024 4096 1024 8192 512 2560)
build_tlb_refinement_points_iff_example =
    build_tlb_refinement_points_iff (1024 ∷ []) (4096 ∷ []) 2048 1024 8192 512 2560 (omega arith)
      (omega arith) (omega arith)
