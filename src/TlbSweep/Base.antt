-- ===== src/TlbSweep/Base.antt =====
-- The base grid: ascending localities, whole pages, within the range of the sweep.
use native.Mathlib.Nat.{div-add-mod}
use mac_os_memory_benchmark.Common.{
  if◌then◌else◌, ℕ, ◌+◌, ◌*◌, ◌/◌, ◌%◌, ◌≤◌, ◌<◌, ◌≡◌, ◌⊎◌, ◌≢◌, List, [], ◌∷◌, All, arith,
  size_max, ltb, leb, ◌==◌, ◌&&◌, ◌||◌, not, Bool-cases, inl, inr, refl, ap,
}
use mac_os_memory_benchmark.Common.Division.{add_up_multiple}
use mac_os_memory_benchmark.Config.{TlbSweepDensity}
use mac_os_memory_benchmark.TlbSweep.{
  sweep_max_locality, calculate_min_sweep_locality, align_up, canonical_localities,
  collect_localities, numbered_points, base_localities, build_tlb_base_sweep_plan, TlbSweepPoint,
  tlb_point_localities, make_point,
}
use mac_os_memory_benchmark.TlbSweep.Sorted.{
  StrictlySorted, sort_unique-StrictlySorted, sort_unique-All,
}

align_up_lem :
    (v a : ℕ)
    → a ≢ 0
    → v ≤ size_max
    → ((align_up v a % a ≡ 0) × (v ≤ align_up v a) × (align_up v a < v + a))
      ⊎ (align_up v a ≡ size_max)
unfolding align_up
align_up_lem v a h fits = ground (arith, add_up_multiple v a)

-- A locality of the grid: whole pages, between the minimum and the maximum of the sweep.
abbrev pub IsLocality : ℕ → ℕ → ℕ → Type 0
IsLocality stride page locality =
    (locality % page ≡ 0)
    × (calculate_min_sweep_locality stride ≤ locality)
    × (locality ≤ sweep_max_locality)

collect-IsLocality :
    (stride page low : ℕ) (cs : List ℕ)
    → page ≢ 0
    → calculate_min_sweep_locality stride ≤ low
    → All (IsLocality stride page) (collect_localities low page cs)
unfolding collect_localities
collect-IsLocality stride page low [] h k = tt
collect-IsLocality stride page low (c ∷ cs) h k =
    elim (Bool-cases
      (leb low c && leb c sweep_max_locality && leb (align_up c page) sweep_max_locality)) [
        | inr e ↦ rw e (collect-IsLocality stride page low cs h k)
        | inl e ↦
            rw e (ground (arith, align_up_lem c page), collect-IsLocality stride page low cs h k)
      ]

min_locality_bound :
    (stride : ℕ) → stride ≤ size_max → calculate_min_sweep_locality stride ≤ size_max
unfolding calculate_min_sweep_locality
min_locality_bound stride h = ground arith

base_localities-IsLocality :
    (stride page : ℕ) (density : TlbSweepDensity)
    → stride ≤ size_max
    → All (IsLocality stride page) (base_localities stride page density)
      × StrictlySorted (base_localities stride page density)
unfolding base_localities
base_localities-IsLocality stride page density fits =
    let low = align_up (calculate_min_sweep_locality stride) page in
    elim (Bool-cases (
      stride == 0
      || page == 0
      || not (stride % 8 == 0)
      || ltb page stride
      || ltb page 8
      || ltb sweep_max_locality low)) [
        | inl e ↦ rw e (tt, tt)
        | inr e ↦
            let aligned =
              align_up_lem (calculate_min_sweep_locality stride) page (ground arith)
                (min_locality_bound stride fits) in
            rw e (
              sort_unique-All (IsLocality stride page)
                  (low ∷ collect_localities low page (canonical_localities density))
                  (
                    ground arith,
                    collect-IsLocality stride page low _ (ground arith) (ground arith),
                  ),
              sort_unique-StrictlySorted
                  (low ∷ collect_localities low page (canonical_localities density)),
            )
      ]

-- A point of the grid at its position.
abbrev pub IsPoint : ℕ → ℕ → ℕ → TlbSweepPoint → Type 0
IsPoint stride page index p =
    (p.point_index ≡ index)
    × (p.stride_bytes ≡ stride)
    × (p.effective_pages * page ≡ p.locality_bytes)
    × (p.pointer_count ≡ p.effective_pages)

abbrev pub ArePoints : ℕ → ℕ → ℕ → List TlbSweepPoint → Type 0
ArePoints stride page index [] = Unit
ArePoints stride page index (p ∷ ps) =
    IsPoint stride page index p × ArePoints stride page (index + 1) ps

pages_of : (l page : ℕ) → l % page ≡ 0 → (if page == 0 then 0 else l / page) * page ≡ l
pages_of l page h = ground (arith, div-add-mod l page)

numbered-ArePoints :
    (stride page index : ℕ) (ls : List ℕ)
    → All (IsLocality stride page) ls
    → ArePoints stride page index (numbered_points stride page index ls)
      × (tlb_point_localities (numbered_points stride page index ls) ≡ ls)
unfolding numbered_points make_point tlb_point_localities
numbered-ArePoints stride page index [] a = (tt, refl)
numbered-ArePoints stride page index (l ∷ ls) a =
    let (points, same) = numbered-ArePoints stride page (index + 1) ls a.1 in
    (((refl, refl, pages_of l page a.0.0, refl), points), ap (λ xs. l ∷ xs) same)

-- For a stride that fits `size_t`, the points of the base grid are numbered in order; each has the
-- page count of its locality, with one pointer to a page; and the localities ascend strictly, are
-- whole pages, and are between the minimum for the stride and the maximum of the sweep.
pub build_tlb_base_sweep_plan-ArePoints :
    (stride page : ℕ) (density : TlbSweepDensity)
    → stride ≤ size_max
    → ArePoints stride page 0 (build_tlb_base_sweep_plan stride page density)
      × All
          (IsLocality stride page)
          (tlb_point_localities (build_tlb_base_sweep_plan stride page density))
      × StrictlySorted (tlb_point_localities (build_tlb_base_sweep_plan stride page density))
unfolding build_tlb_base_sweep_plan
build_tlb_base_sweep_plan-ArePoints stride page density fits =
    let (all, sorted) = base_localities-IsLocality stride page density fits in
    let (points, same) =
      numbered-ArePoints stride page 0 (base_localities stride page density) all in
    rw same (points, all, sorted)
