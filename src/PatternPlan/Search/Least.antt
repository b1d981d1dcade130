-- ===== src/PatternPlan/Search/Least.antt =====
-- The binary search: it ends, and the count it returns reaches the payload floor while the count
-- before it does not.
use mathlib.Core.Path.{subst}
use mac_os_memory_benchmark.Common.{
  ℕ, zero, suc, ◌+◌, ◌-◌, ◌*◌, ◌/◌, ◌^◌, ◌≤◌, ◌<◌, ◌≡◌, ◌≢◌, ◌⊎◌, inl, inr, refl, arith, some, none,
  Option-cases, Bool-cases, ltb, leb, int_max, ltb→lt, leb→le, ◌==◌, false, sym,
}
use mac_os_memory_benchmark.PatternPlan.{PatternWorkPlan, PatternReason}
use mac_os_memory_benchmark.PatternPlan.Metrics.{set_strided_pattern_passes}
use mac_os_memory_benchmark.PatternPlan.Search.{
  Searched, found, total_failed, out_of_fuel, search_passes, select_passes, selected, failed,
  searched_selection, search_fuel,
}

-- The totals of a pass count reach the floor, or fall short of it.
abbrev pub Reaches : PatternWorkPlan → ℕ → ℕ → Type 0
Reaches plan floor passes =
    (p : PatternWorkPlan) × (set_strided_pattern_passes plan passes ≡ some p)
    × (floor ≤ p.total_payload_bytes)

abbrev pub FallsShort : PatternWorkPlan → ℕ → ℕ → Type 0
FallsShort plan floor passes =
    (p : PatternWorkPlan) × (set_strided_pattern_passes plan passes ≡ some p)
    × (p.total_payload_bytes < floor)

abbrev middle : ℕ → ℕ → ℕ
middle lower upper = lower + (upper - lower) / 2

-- The cases of one turn of the loop.
module _ (fuel : ℕ) (plan : PatternWorkPlan) (floor lower upper : ℕ) where
  step_done : upper ≤ lower → search_passes (suc fuel) plan floor lower upper ≡ found lower
  unfolding search_passes
  step_done h = ground arith

  step_failed :
      lower < upper
      → set_strided_pattern_passes plan (middle lower upper) ≡ none
      → search_passes (suc fuel) plan floor lower upper ≡ total_failed
  unfolding search_passes
  step_failed h e = ground arith

  step_low :
      (p : PatternWorkPlan)
      → lower < upper
      → set_strided_pattern_passes plan (middle lower upper) ≡ some p
      → floor ≤ p.total_payload_bytes
      → search_passes (suc fuel) plan floor lower upper
        ≡ search_passes fuel plan floor lower (middle lower upper)
  unfolding search_passes
  step_low p h e enough = ground arith

  step_high :
      (p : PatternWorkPlan)
      → lower < upper
      → set_strided_pattern_passes plan (middle lower upper) ≡ some p
      → p.total_payload_bytes < floor
      → search_passes (suc fuel) plan floor lower upper
        ≡ search_passes fuel plan floor (middle lower upper + 1) upper
  unfolding search_passes
  step_high p h e short = ground arith

  -- Which of them it is.
  data Turn : Type 0 where
    ended : upper ≤ lower → Turn
    failed_turn : lower < upper → set_strided_pattern_passes plan (middle lower upper) ≡ none → Turn
    reached : lower < upper → Reaches plan floor (middle lower upper) → Turn
    fell_short : lower < upper → FallsShort plan floor (middle lower upper) → Turn

  turn : Turn
  turn = elim (Bool-cases (ltb lower upper)) [
    | inr f ↦ ended (ground arith)
    | inl t ↦ elim (Option-cases (set_strided_pattern_passes plan (middle lower upper))) [
      | inl n ↦ failed_turn (ltb→lt lower upper t) n
      | inr (p, e) ↦ elim (Bool-cases (leb floor p.total_payload_bytes)) [
        | inl enough ↦
            reached (ltb→lt lower upper t) (p, e, leb→le floor p.total_payload_bytes enough)
        | inr short ↦ fell_short (ltb→lt lower upper t) (p, e, ground arith)
      ]
    ]
  ]

-- On a range of pass counts shorter than 2 ^ fuel the binary search does not run out of fuel.
pub search_passes-ends :
    (fuel : ℕ) (plan : PatternWorkPlan) (floor lower upper : ℕ)
    → upper < lower + 2 ^ fuel
    → search_passes fuel plan floor lower upper ≢ out_of_fuel
search_passes-ends zero plan floor lower upper h e = (unfold search_passes in ground arith)
search_passes-ends (suc fuel) plan floor lower upper h e =
    let halves : 2 ^ suc fuel ≡ 2 * 2 ^ fuel = omega arith in
    elim (turn fuel plan floor lower upper) [
      | ended le ↦ ground (arith, step_done fuel plan floor lower upper le)
      | failed_turn lt n ↦ absurd (ground (arith, step_failed fuel plan floor lower upper lt n))
      | reached lt (p, y, enough) ↦
          search_passes-ends fuel plan floor lower (middle lower upper) (omega arith)
            (rw (step_low fuel plan floor lower upper p lt y enough) at e)
      | fell_short lt (p, y, short) ↦
          search_passes-ends fuel plan floor (middle lower upper + 1) upper (omega arith)
            (rw (step_high fuel plan floor lower upper p lt y short) at e)
    ]

-- What the search promises of the count it returns.
abbrev pub IsLeast : PatternWorkPlan → ℕ → ℕ → ℕ → ℕ → Type 0
IsLeast plan floor base upper passes =
    (base ≤ passes)
    × (passes ≤ upper)
    × Reaches plan floor passes
    × ((passes ≡ base) ⊎ FallsShort plan floor (passes - 1))

IsLeast-at :
    (plan : PatternWorkPlan) (floor base lower upper passes : ℕ)
    → base ≤ lower
    → lower ≡ upper
    → lower ≡ passes
    → (lower ≡ base) ⊎ FallsShort plan floor (lower - 1)
    → Reaches plan floor upper
    → IsLeast plan floor base upper passes
IsLeast-at plan floor base lower upper passes h same is low up =
    subst (IsLeast plan floor base upper) is
      (h, omega arith, subst (Reaches plan floor) (sym same) up, low)

pub search_passes-found :
    (fuel : ℕ) (plan : PatternWorkPlan) (floor base lower upper passes : ℕ)
    → base ≤ lower
    → lower ≤ upper
    → (lower ≡ base) ⊎ FallsShort plan floor (lower - 1)
    → Reaches plan floor upper
    → search_passes fuel plan floor lower upper ≡ found passes
    → IsLeast plan floor base upper passes
search_passes-found zero plan floor base lower upper passes h k low up e =
    let (same, is) : (lower ≡ upper) × (lower ≡ passes) = (unfold search_passes in ground arith) in
    IsLeast-at plan floor base lower upper passes h same is low up
search_passes-found (suc fuel) plan floor base lower upper passes h k low up e =
    elim (turn fuel plan floor lower upper) [
      | ended le ↦
          let is : found lower ≡ found passes =
            rw (step_done fuel plan floor lower upper le) at e in
          IsLeast-at plan floor base lower upper passes h (omega arith) (ground arith) low up
      | failed_turn lt n ↦ absurd (ground (arith, step_failed fuel plan floor lower upper lt n))
      | reached lt (p, y, enough) ↦
          let (b, u, r, l) =
            search_passes-found fuel plan floor base lower (middle lower upper) passes h
              (omega arith) low (p, y, enough)
              (rw (step_low fuel plan floor lower upper p lt y enough) at e) in
          (b, omega arith, r, l)
      | fell_short lt (p, y, short) ↦
          let before : middle lower upper + 1 - 1 ≡ middle lower upper = omega arith in
          search_passes-found fuel plan floor base (middle lower upper + 1) upper passes
            (omega arith) (omega arith) (inr (p, rw before y, short)) up
            (rw (step_high fuel plan floor lower upper p lt y short) at e)
    ]

searched-selected :
    (s : Searched) (passes : ℕ) → searched_selection s ≡ selected passes → s ≡ found passes
unfolding searched_selection
searched-selected (found n) passes e = ground arith
searched-selected total_failed passes e = absurd (ground arith)
searched-selected out_of_fuel passes e = absurd (ground arith)

-- With a payload floor the maximum count reaches it, and the search has found the count.
selected_by_search :
    (plan : PatternWorkPlan) (base floor passes : ℕ)
    → 1 ≤ floor
    → select_passes plan base floor ≡ selected passes
    → Reaches plan floor int_max
      × (searched_selection (search_passes search_fuel plan floor base int_max) ≡ selected passes)
unfolding select_passes
selected_by_search plan base floor passes pos e =
    let no : (floor == 0) ≡ false = ground arith in
    elim (Option-cases (set_strided_pattern_passes plan int_max)) [
      | inl n ↦ absurd (failed≢selected (rw (no, n) at e))
      | inr (p, y) ↦ elim (Bool-cases (ltb p.total_payload_bytes floor)) [
        | inl short ↦ absurd (failed≢selected (rw (no, y, short) at e))
        | inr enough ↦ ((p, y, ground arith), rw (no, y, enough) at e)
      ]
    ]
  where
    failed≢selected : {reason : PatternReason} → failed reason ≢ selected passes
    failed≢selected x = cc

-- With a base that fits `int` and a payload floor above 0, a selected pass count is between the
-- base and the largest `int`, its payload reaches the floor, and unless it is the base the payload
-- of the count before it falls short.
pub select_passes-IsLeast :
    (plan : PatternWorkPlan) (base floor passes : ℕ)
    → base ≤ int_max
    → 1 ≤ floor
    → select_passes plan base floor ≡ selected passes
    → IsLeast plan floor base int_max passes
select_passes-IsLeast plan base floor passes h pos e =
    let (reaches, found_it) = selected_by_search plan base floor passes pos e in
    search_passes-found search_fuel plan floor base base int_max passes (omega arith) h (inl refl)
      reaches (searched-selected _ passes found_it)
