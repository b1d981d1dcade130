-- ===== src/TlbScheduler/Balanced.antt =====
-- Every round of the schedule measures each point once.
use mathlib.Core.List.{Perm, map-map}
use mathlib.Core.List.Perm
use mac_os_memory_benchmark.Common.{
  ℕ, zero, suc, ◌+◌, ◌-◌, ◌%◌, ◌≤◌, ◌<◌, ◌≡◌, ◌∙◌, refl, sym, ap, List, [], ◌∷◌, map, length,
  get_or, iota, arith,
}
use mac_os_memory_benchmark.CyclicOrder.{build_cyclic_order, rotated_position}
use mac_os_memory_benchmark.CyclicOrder.Rotation.{
  build_cyclic_order-perm, rotated_position_lem, order_of_pos, build_cyclic_order-zero,
}
use mac_os_memory_benchmark.TlbSweep.{TlbSweepPoint}
use mac_os_memory_benchmark.TlbScheduler.{
  TlbMeasurementPass, TlbMeasurementTask, point_at, scheduled_task, round_tasks,
}

map-iota_cong :
    {A : Type 0} (f g : ℕ → A) (first count : ℕ)
    → ((i : ℕ) → first ≤ i → i < first + count → f i ≡ g i)
    → map f (iota first count) ≡ map g (iota first count)
map-iota_cong f g first zero h = refl
map-iota_cong f g first (suc count) h = rw (
  h first (omega arith) (omega arith),
  map-iota_cong f g (first + 1) count (λ i lo hi. h i (omega arith) (omega arith)),
)

get-suc :
    {A : Type 0} (x : A) (xs : List A) (d : A) (first count : ℕ)
    → map (λ i. get_or (x ∷ xs) i d) (iota (first + 1) count)
      ≡ map (λ i. get_or xs i d) (iota first count)
get-suc x xs d first zero = refl
get-suc x xs d first (suc count) =
    let e : first + 1 ≡ suc first = omega arith in
    let here : get_or (x ∷ xs) (first + 1) d ≡ get_or xs first d = rw e in
    rw (here, get-suc x xs d (first + 1) count)

-- A list is the values at its positions.
map-get : {A : Type 0} (xs : List A) (d : A) → map (λ i. get_or xs i d) (iota 0 (length xs)) ≡ xs
map-get [] d = refl
map-get (x ∷ xs) d = ap (λ ys. x ∷ ys) (get-suc x xs d 0 (length xs) ∙ map-get xs d)

-- What std::shuffle leaves of the indices: the same ones, in some order.
pub record IsShuffle (count : ℕ) (order : List ℕ) : Type 0 where
  pub same_indices : Perm order (iota 0 count)
  pub same_length : length order ≡ count

rotation_of_iota : (n r : ℕ) → map (λ i. (i + r) % n) (iota 0 n) ≡ build_cyclic_order n r
rotation_of_iota zero r = sym (build_cyclic_order-zero r)
rotation_of_iota (suc n) r =
    map-iota_cong (λ i. (i + r) % suc n) (rotated_position (r % suc n) (suc n - r % suc n)) 0
      (suc n)
      (λ i lo hi.
        (let e : i + r ≡ r + i = omega arith in
          rw e (sym (rotated_position_lem (suc n) r i (omega arith)))))
    ∙ sym (order_of_pos (suc n) r (omega arith))

module _ (points : List TlbSweepPoint) (order : List ℕ) (base_seed : ℕ)
    (pass : TlbMeasurementPass) where
  abbrev index_of : ℕ → ℕ
  index_of k = (point_at points k).point_index

  -- The point index of each task of a round, by the position in the shuffled order.
  round-indices :
      (r : ℕ)
      → map (λ (t : TlbMeasurementTask). t.point_index) (round_tasks points order base_seed pass r)
        ≡ map index_of (map (λ j. get_or order j 0) (build_cyclic_order (length points) r))
  unfolding round_tasks scheduled_task
  round-indices r = rw (sym (rotation_of_iota (length points) r)) (
      map-map (λ (t : TlbMeasurementTask). t.point_index)
        (scheduled_task points order base_seed pass r) (iota 0 (length points))
      ∙ sym (
          ap (map index_of) (
            map-map (λ j. get_or order j 0) (λ i. (i + r) % length points) (iota 0 (length points)))
          ∙ map-map index_of (λ i. get_or order ((i + r) % length points) 0)
              (iota 0 (length points))))

  -- In the shuffled order, and in that of the points.
  shuffled_indices :
      length order ≡ length points
      → map index_of (map (λ j. get_or order j 0) (iota 0 (length points))) ≡ map index_of order
  shuffled_indices e =
      let whole : map (λ j. get_or order j 0) (iota 0 (length order)) ≡ order = map-get order 0 in
      ap (map index_of) (rw e at whole)

  point_indices :
      map index_of (iota 0 (length points)) ≡ map (λ (p : TlbSweepPoint). p.point_index) points
  unfolding point_at
  point_indices =
      sym
        (map-map (λ (p : TlbSweepPoint). p.point_index) (point_at points) (iota 0 (length points)))
      ∙ ap (map (λ (p : TlbSweepPoint). p.point_index)) (map-get points _)

  -- Whatever order of the indices the shuffle gives, every round has one task for each point.
  pub round_tasks-perm :
      (r : ℕ)
      → IsShuffle (length points) order
      → Perm
          (map
            (λ (t : TlbMeasurementTask). t.point_index)
            (round_tasks points order base_seed pass r))
          (map (λ (p : TlbSweepPoint). p.point_index) points)
  round_tasks-perm r shuffle =
      let rotated =
        Perm.map index_of
          (Perm.map (λ j. get_or order j 0) (build_cyclic_order-perm (length points) r)) in
      let same = Perm.map index_of shuffle.same_indices in
      rw (round-indices r, sym point_indices)
        (Perm.trans (rw (shuffled_indices shuffle.same_length) at rotated) same)
