-- ===== src/TlbSweep/Refinement.antt =====
-- The refinement points are exactly the subdivisions of the bracket, rounded down to the alignment,
-- that lie strictly inside it and are not measured yet.
use mathlib.Core.Path.{subst}
use native.Mathlib.Nat.{mul-le-mul, mul-le-mul_left}
use mac_os_memory_benchmark.Common.{
  ℕ, zero, suc, ◌+◌, ◌*◌, ◌/◌, ◌%◌, ◌-◌, ◌≤◌, ◌<◌, ◌≡◌, ◌↔◌, refl, ap, sym, ◌∙◌, List, [], ◌∷◌,
  ◌++◌, arith, true, false, ltb, leb, ◌==◌, ◌&&◌, ◌||◌, not, length, Bool, length-append, iota,
  Bool-cases, inl, inr, min, size_max, mul_size_exact, add_size_exact, if◌then◌else◌,
}
use mac_os_memory_benchmark.TlbSweep.{
  refinement_subdivisions, contains, refinement_candidate, collect_candidates,
  build_tlb_refinement_points, sort_unique,
}
use mac_os_memory_benchmark.TlbSweep.Sorted.{
  StrictlySorted, sort_unique-StrictlySorted, contains-sort_unique,
}
use mac_os_memory_benchmark.TlbSweep.Bracket.{
  last_or, first_or, bracket_lower_lem, bracket_upper_lem,
}

-- A new locality inside the bracket.
abbrev pub IsInside : List ℕ → ℕ → ℕ → ℕ → ℕ → ℕ → Type 0
IsInside localities lower upper low high p =
    (lower < p) × (p < upper) × (low ≤ p) × (p ≤ high) × (contains localities p ≡ false)

-- The end of a subdivision of the bracket, without overflow, rounded down to the alignment.
abbrev pub subdivision : ℕ → ℕ → ℕ → ℕ → ℕ
subdivision lower upper alignment step =
    let raw = lower + (upper - lower) * step / refinement_subdivisions in raw - raw % alignment

product_fits :
    (width upper step : ℕ)
    → width ≤ upper
    → upper * refinement_subdivisions ≤ size_max
    → step < refinement_subdivisions
    → width * step ≤ size_max
product_fits width upper step h fits lt =
    let bound = mul-le-mul h (let le : step ≤ refinement_subdivisions = omega arith in le) in
    omega (arith, bound)

part_below :
    (width step : ℕ)
    → step < refinement_subdivisions
    → width * step / refinement_subdivisions ≤ width
part_below width step lt =
    let bound =
      mul-le-mul_left width (let le : step ≤ refinement_subdivisions = omega arith in le) in
    omega (arith, bound)

candidate_lem :
    (lower upper alignment step : ℕ)
    → lower ≤ upper
    → upper * refinement_subdivisions ≤ size_max
    → step < refinement_subdivisions
    → refinement_candidate lower upper alignment step ≡ subdivision lower upper alignment step
unfolding refinement_candidate
candidate_lem lower upper alignment step h fits lt =
    let product = product_fits (upper - lower) upper step (omega arith) fits lt in
    let exact = mul_size_exact (upper - lower) step product in
    let part = part_below (upper - lower) step lt in
    let sum =
      add_size_exact lower ((upper - lower) * step / refinement_subdivisions)
        (omega (arith, part)) in
    rw (exact, sum) refl

-- A refinement point.
abbrev pub IsPoint : List ℕ → ℕ → ℕ → ℕ → ℕ → ℕ → ℕ → Type 0
IsPoint localities lower upper low high alignment p =
    IsInside localities lower upper low high p
    × ((step : ℕ) × (1 ≤ step)
        × (step < refinement_subdivisions)
        × (p ≡ subdivision lower upper alignment step))

-- What a search finds in a list with one more value or without it.
one_found :
    (test : Bool) (c p : ℕ) (rest : List ℕ)
    → contains (if test then c ∷ rest else rest) p
      ≡ (if test && p == c then true else contains rest p)
unfolding contains
one_found true c p rest = refl
one_found false c p rest = refl

not_here : (test found : Bool) → test ≡ false → (if test then true else found) ≡ true → found ≡ true
not_here test found e h = ground arith

in_rest : (test found : Bool) → found ≡ true → (if test then true else found) ≡ true
in_rest test found h = ground arith

here :
    (test : Bool) (p c : ℕ) (found : Bool)
    → test ≡ true
    → p ≡ c
    → (if test && p == c then true else found) ≡ true
here test p c found t e = ground arith

module _ (localities : List ℕ) (lower upper low high alignment : ℕ) where
  test_iff :
      (c : ℕ)
      → ((ltb lower c && ltb c upper && leb low c && leb c high && not (contains localities c))
          ≡ true)
        ↔ IsInside localities lower upper low high c
  test_iff c = ground arith

  collect_iff :
      (first count p : ℕ)
      → (contains
            (collect_candidates localities lower upper low high alignment (iota first count))
            p
          ≡ true)
        ↔ (IsInside localities lower upper low high p
            × ((step : ℕ) × (first ≤ step)
                × (step < first + count)
                × (p ≡ refinement_candidate lower upper alignment step)))
  unfolding collect_candidates contains
  collect_iff first zero p = (λ e. cc, λ k. absurd (omega arith))
  collect_iff first (suc count) p =
      let c = refinement_candidate lower upper alignment first in
      let test =
        ltb lower c && ltb c upper && leb low c && leb c high && not (contains localities c) in
      let others =
        collect_candidates localities lower upper low high alignment (iota (first + 1) count) in
      let step_found = one_found test c p others in
      let rest = collect_iff (first + 1) count p in
      let inside_iff = test_iff c in
      (
        λ e. elim (Bool-cases (test && p == c)) [
          | inl b ↦
              let is : p ≡ c = ground (arith, b) in
              let inside = inside_iff.0 (ground (arith, b)) in
              (
                subst (IsInside localities lower upper low high) (sym is) inside,
                (first, omega arith, omega arith, is),
              )
          | inr b ↦
              let (inside, (step, lo, hi, is)) =
                rest.0 (not_here (test && p == c) (contains others p) b (sym step_found ∙ e)) in
              (inside, (step, omega arith, omega arith, is))
        ],
        λ k. elim (Bool-cases (k.1.0 == first)) [
          | inl b ↦
              let same : k.1.0 ≡ first = ground (arith, b) in
              let is : p ≡ c = k.1.3 ∙ ap (refinement_candidate lower upper alignment) same in
              let tested = inside_iff.1 (subst (IsInside localities lower upper low high) is k.0) in
              step_found ∙ here test p c (contains others p) tested is
          | inr b ↦
              let found =
                rest.1 (k.0, (k.1.0, ground (arith, b, k.1.1), ground (arith, k.1.2), k.1.3)) in
              step_found ∙ in_rest (test && p == c) (contains others p) found
        ],
      )

subdivisions_iff :
    (localities : List ℕ) (lower upper low high alignment p : ℕ)
    → lower ≤ upper
    → upper * refinement_subdivisions ≤ size_max
    → (contains
          (sort_unique (
            collect_candidates localities lower upper low high alignment
              (iota 1 (refinement_subdivisions - 1))))
          p
        ≡ true)
      ↔ IsPoint localities lower upper low high alignment p
subdivisions_iff localities lower upper low high alignment p h fits =
    let found =
      contains-sort_unique
        (collect_candidates localities lower upper low high alignment
          (iota 1 (refinement_subdivisions - 1)))
        p in
    let exact =
      collect_iff localities lower upper low high alignment 1 (refinement_subdivisions - 1) p in
    (
      λ f.
          let (inside, (step, lo, hi, is)) = exact.0 (sym found ∙ f) in
          (
            inside,
            (
              step,
              lo,
              omega arith,
              is ∙ candidate_lem lower upper alignment step h fits (omega arith),
            ),
          ),
      λ k.
          let (inside, (step, lo, hi, is)) = k in
          found
          ∙ exact.1 (
            inside,
            (
              step,
              lo,
              omega arith,
              is ∙ sym (candidate_lem lower upper alignment step h fits (omega arith)),
            ),
          ),
    )

points_iff :
    (localities : List ℕ) (lower upper low high alignment : ℕ)
    → upper * refinement_subdivisions ≤ size_max
    → (out : Bool) → out ≡ false
    → (let points =
          if out || leb upper lower
          then []
          else sort_unique (
              collect_candidates localities lower upper low high alignment
                (iota 1 (refinement_subdivisions - 1))) in
        StrictlySorted points
        × ((p : ℕ)
            → (contains points p ≡ true) ↔ IsPoint localities lower upper low high alignment p))
unfolding contains
points_iff localities lower upper low high alignment fits out e =
    elim (Bool-cases (leb upper lower)) [
      | inl empty ↦ rw (e, empty) (tt, λ p. (λ f. cc, λ k. absurd (ground arith)))
      | inr some ↦
          let candidates =
            collect_candidates localities lower upper low high alignment
              (iota 1 (refinement_subdivisions - 1)) in
          rw (e, some)
            (
              sort_unique-StrictlySorted candidates,
              λ p.
                  subdivisions_iff localities lower upper low high alignment p
                    (ground (arith, some)) fits,
            )
    ]

-- For a positive alignment, the refinement points of the boundary that stands after `front` and
-- before `back` ascend strictly, and they are exactly the ends of the subdivisions of the bracket, rounded down to the alignment,
-- that lie strictly inside the bracket, within the range and not among the localities. The bracket
-- goes from the last locality before the boundary, or the least one, to the first after it, or
-- twice the boundary up to the largest one; the largest locality, and the end of the bracket times
-- the number of subdivisions, fit `size_t`.
pub build_tlb_refinement_points_iff :
    (front back : List ℕ) (boundary low high alignment p : ℕ)
    → 1 ≤ alignment
    → high ≤ size_max
    → first_or (min high (boundary * 2)) back * refinement_subdivisions ≤ size_max
    → StrictlySorted
        (build_tlb_refinement_points (front ++ boundary ∷ back) (length front) low high alignment)
      × ((contains
              (build_tlb_refinement_points
                (front ++ boundary ∷ back)
                (length front)
                low
                high
                alignment)
              p
            ≡ true)
          ↔ IsPoint
              (front ++ boundary ∷ back)
              (last_or low front)
              (first_or (min high (boundary * 2)) back)
              low
              high
              alignment
              p)
unfolding build_tlb_refinement_points
build_tlb_refinement_points_iff front back boundary low high alignment p some_alignment h fits =
    let localities = front ++ boundary ∷ back in
    let (sorted, exact) =
      points_iff localities (last_or low front) (first_or (min high (boundary * 2)) back) low high
        alignment fits (leb (length localities) (length front) || alignment == 0)
        (ground (arith, length-append front (boundary ∷ back))) in
    rw (bracket_lower_lem front back boundary low, bracket_upper_lem front back boundary high h)
      (sorted, exact p)
