-- ===== src/TlbSweep/Sorted.antt =====
-- Sorting without duplicates: strictly ascending, with the same values.
use mac_os_memory_benchmark.Common.{
  ℕ, ◌<◌, List, [], ◌∷◌, All, arith, ltb, ◌≡◌, refl, ◌==◌, Bool-cases, inl, inr,
}
use mac_os_memory_benchmark.TlbSweep.{insert_unique, sort_unique, contains}

-- The values ascend from above `low`.
abbrev pub Rises : ℕ → List ℕ → Type 0
Rises low [] = Unit
Rises low (x ∷ xs) = (low < x) × Rises x xs

abbrev pub StrictlySorted : List ℕ → Type 0
StrictlySorted [] = Unit
StrictlySorted (x ∷ xs) = Rises x xs

insert-Rises : (low x : ℕ) (ys : List ℕ) → low < x → Rises low ys → Rises low (insert_unique x ys)
unfolding insert_unique
insert-Rises low x [] h r = (h, tt)
insert-Rises low x (y ∷ ys) h r = elim (Bool-cases (ltb x y)) [
  | inl lt ↦ rw lt (h, (ground arith, r.1))
  | inr ge ↦ elim (Bool-cases (x == y)) [
    | inl e ↦ rw (ge, e) r
    | inr ne ↦ rw (ge, ne) (r.0, insert-Rises y x ys (ground arith) r.1)
  ]
]

insert-StrictlySorted :
    (x : ℕ) (ys : List ℕ) → StrictlySorted ys → StrictlySorted (insert_unique x ys)
unfolding insert_unique
insert-StrictlySorted x [] r = tt
insert-StrictlySorted x (y ∷ ys) r = elim (Bool-cases (ltb x y)) [
  | inl lt ↦ rw lt (ground arith, r)
  | inr ge ↦ elim (Bool-cases (x == y)) [
    | inl e ↦ rw (ge, e) r
    | inr ne ↦ rw (ge, ne) (insert-Rises y x ys (ground arith) r)
  ]
]

pub sort_unique-StrictlySorted : (xs : List ℕ) → StrictlySorted (sort_unique xs)
unfolding sort_unique
sort_unique-StrictlySorted [] = tt
sort_unique-StrictlySorted (x ∷ xs) =
    insert-StrictlySorted x (sort_unique xs) (sort_unique-StrictlySorted xs)

insert-All : (P : ℕ → Type 0) (x : ℕ) (ys : List ℕ) → P x → All P ys → All P (insert_unique x ys)
unfolding insert_unique
insert-All P x [] h a = (h, tt)
insert-All P x (y ∷ ys) h a = elim (Bool-cases (ltb x y)) [
  | inl lt ↦ rw lt (h, a)
  | inr ge ↦ elim (Bool-cases (x == y)) [
    | inl e ↦ rw (ge, e) a
    | inr ne ↦ rw (ge, ne) (a.0, insert-All P x ys h a.1)
  ]
]

pub sort_unique-All : (P : ℕ → Type 0) (xs : List ℕ) → All P xs → All P (sort_unique xs)
unfolding sort_unique
sort_unique-All P [] a = tt
sort_unique-All P (x ∷ xs) a = insert-All P x (sort_unique xs) a.0 (sort_unique-All P xs a.1)

insert-contains :
    (x : ℕ) (ys : List ℕ) (p : ℕ) → contains (insert_unique x ys) p ≡ contains (x ∷ ys) p
unfolding insert_unique contains
insert-contains x [] p = refl
insert-contains x (y ∷ ys) p = elim (Bool-cases (ltb x y)) [
  | inl lt ↦ rw lt refl
  | inr ge ↦ elim (Bool-cases (x == y)) [
    | inl e ↦ rw (ge, e) (ground arith)
    | inr ne ↦ rw (ge, ne) (ground (arith, insert-contains x ys p))
  ]
]

-- The same values are found.
pub contains-sort_unique : (xs : List ℕ) (p : ℕ) → contains (sort_unique xs) p ≡ contains xs p
unfolding sort_unique contains
contains-sort_unique [] p = refl
contains-sort_unique (x ∷ xs) p =
    ground (arith, insert-contains x (sort_unique xs) p, contains-sort_unique xs p)
