-- ===== src/TlbSweep/Bracket.antt =====
-- The bracket of a boundary: its neighbours among the localities, or the ends of the range.
use mac_os_memory_benchmark.Common.{
  ℕ, suc, ◌+◌, ◌*◌, ◌≤◌, ◌≡◌, refl, ap, ◌∙◌, List, [], ◌∷◌, ◌++◌, arith, ltb, length, Bool,
  length-append, get_or, min, size_max, if◌then◌else◌,
}
use mac_os_memory_benchmark.TlbSweep.{bracket_lower, bracket_upper, bounded_double}

-- The neighbours of a boundary: the last locality before it and the first after it, or a bound where
-- there is none.
abbrev pub last_or : ℕ → List ℕ → ℕ
last_or bound [] = bound
last_or bound (x ∷ xs) = last_or x xs

abbrev pub first_or : ℕ → List ℕ → ℕ
first_or bound [] = bound
first_or bound (x ∷ xs) = x

get_or-last : (x : ℕ) (xs ys : List ℕ) → get_or (x ∷ (xs ++ ys)) (length xs) 0 ≡ last_or x xs
get_or-last x [] ys = refl
get_or-last x (y ∷ xs) ys = get_or-last y xs ys

pub bracket_lower_lem :
    (front back : List ℕ) (boundary low : ℕ)
    → bracket_lower (front ++ boundary ∷ back) (length front) low ≡ last_or low front
unfolding bracket_lower
bracket_lower_lem [] back boundary low = refl
bracket_lower_lem (x ∷ xs) back boundary low = get_or-last x xs (boundary ∷ back)

get_or-here : (xs ys : List ℕ) (d : ℕ) → get_or (xs ++ ys) (length xs) d ≡ get_or ys 0 d
get_or-here [] ys d = refl
get_or-here (x ∷ xs) ys d = get_or-here xs ys d

get_or-next : (xs ys : List ℕ) (y d : ℕ) → get_or (xs ++ y ∷ ys) (suc (length xs)) d ≡ get_or ys 0 d
get_or-next [] ys y d = refl
get_or-next (x ∷ xs) ys y d = get_or-next xs ys y d

doubled_lem :
    (value maximum : ℕ)
    → maximum ≤ size_max
    → bounded_double value maximum ≡ min maximum (value * 2)
unfolding bounded_double
doubled_lem value maximum h = ground arith

upper_by_test :
    (test : Bool) (next own bound : ℕ) (back : List ℕ)
    → test ≡ ltb 0 (length back)
    → next ≡ get_or back 0 0
    → own ≡ bound
    → (if test then next else own) ≡ first_or bound back
upper_by_test test next own bound [] t n o = rw t o
upper_by_test test next own bound (x ∷ xs) t n o = ground (arith, t, n)

pub bracket_upper_lem :
    (front back : List ℕ) (boundary high : ℕ)
    → high ≤ size_max
    → bracket_upper (front ++ boundary ∷ back) (length front) high
      ≡ first_or (min high (boundary * 2)) back
unfolding bracket_upper
bracket_upper_lem front back boundary high h =
    let count = length-append front (boundary ∷ back) in
    let next : length front + 1 ≡ suc (length front) = omega arith in
    upper_by_test (ltb (length front + 1) (length (front ++ boundary ∷ back)))
      (get_or (front ++ boundary ∷ back) (length front + 1) 0)
      (bounded_double (get_or (front ++ boundary ∷ back) (length front) 0) high)
      (min high (boundary * 2)) back (ground (arith, count))
      (ap (λ i. get_or (front ++ boundary ∷ back) i 0) next ∙ get_or-next front back boundary 0)
      (rw (get_or-here front (boundary ∷ back) 0) (doubled_lem boundary high h))
