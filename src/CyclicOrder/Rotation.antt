-- ===== src/CyclicOrder/Rotation.antt =====
-- The order is a rotation: which index stands where, and that each index occurs once.
use native.Mathlib.Nat.{mod-eq_of_lt, mod-eq-sub-mod, mod-add-mod, mod-lt, add-zero, zero-add}
use mathlib.Core.List.{Perm, map-append, perm_append_comm}
use mathlib.Core.List.Perm
use mac_os_memory_benchmark.Common.{
  ℕ, zero, suc, ◌+◌, ◌-◌, ◌%◌, ◌<◌, ◌≤◌, ◌≡◌, refl, List, [], ◌∷◌, ◌++◌, map, iota, length,
  length-iota, length-map, get_or, get_or-iota, arith,
}
use mac_os_memory_benchmark.CyclicOrder.{rotated_position, build_cyclic_order}

get_or-map :
    (xs : List ℕ) (f : ℕ → ℕ) (i d : ℕ) → i < length xs → get_or (map f xs) i d ≡ f (get_or xs i d)
get_or-map [] f i d h = elim h [ ]
get_or-map (x ∷ xs) f zero d h = refl
get_or-map (x ∷ xs) f (suc i) d h = get_or-map xs f i d (omega arith)

pub rotated_position_lem :
    (n r i : ℕ) → i < n → rotated_position (r % n) (n - r % n) i ≡ (r + i) % n
unfolding rotated_position
rotated_position_lem n r i h = ground (
  arith,
  mod-add-mod r n i,
  mod-lt r {m = n} (omega arith),
  mod-eq_of_lt {n = r % n + i} {m = n},
  mod-eq-sub-mod {n = r % n + i} {m = n},
  mod-eq_of_lt {n = r % n + i - n} {m = n},
)

pub order_of_pos :
    (n r : ℕ)
    → 1 ≤ n
    → build_cyclic_order n r ≡ map (rotated_position (r % n) (n - r % n)) (iota 0 n)
unfolding build_cyclic_order
order_of_pos n r h = ground arith

pub length-build_cyclic_order : (n r : ℕ) → length (build_cyclic_order n r) ≡ n
unfolding build_cyclic_order
length-build_cyclic_order zero r = refl
length-build_cyclic_order (suc n) r =
    rw (order_of_pos (suc n) r (omega arith), length-map, length-iota)

-- At each position below the item count stands the rotation index plus the position, modulo the
-- count.
pub build_cyclic_order-get :
    (n r i d : ℕ) → i < n → get_or (build_cyclic_order n r) i d ≡ (r + i) % n
build_cyclic_order-get n r i d h =
    rw
      (
        order_of_pos n r (omega arith),
        get_or-map (iota 0 n) (rotated_position (r % n) (n - r % n)) i d
            (omega (arith, length-iota 0 n)),
        get_or-iota 0 n i d h,
        zero-add,
      )
      (rotated_position_lem n r i h)

-- Two runs of consecutive numbers are one.
pub iota-append : (a m n : ℕ) → iota a m ++ iota (a + m) n ≡ iota a (m + n)
iota-append a zero n = rw (add-zero, zero-add)
iota-append a (suc m) n =
    let e1 : a + suc m ≡ a + 1 + m = omega arith in
    let e2 : suc m + n ≡ suc (m + n) = omega arith in rw (e1, e2, iota-append (a + 1) m n)

-- The positions before the wrap.
map_before_wrap : (s k p c : ℕ) → p + c ≤ k → map (rotated_position s k) (iota p c) ≡ iota (s + p) c
map_before_wrap s k p zero h = refl
map_before_wrap s k p (suc c) h =
    let head : rotated_position s k p ≡ s + p = unfold rotated_position in ground arith in
    let tail : s + p + 1 ≡ s + (p + 1) = omega arith in
    rw (head, tail, map_before_wrap s k (p + 1) c (omega arith))

-- The positions after it.
map_after_wrap : (s k a c : ℕ) → map (rotated_position s k) (iota (k + a) c) ≡ iota a c
map_after_wrap s k a zero = refl
map_after_wrap s k a (suc c) =
    let head : rotated_position s k (k + a) ≡ a = unfold rotated_position in ground arith in
    let tail : k + a + 1 ≡ k + (a + 1) = omega arith in
    rw (head, tail, map_after_wrap s k (a + 1) c)

rotation-split :
    (n s : ℕ) → s ≤ n → map (rotated_position s (n - s)) (iota 0 n) ≡ iota s (n - s) ++ iota 0 s
rotation-split n s h =
    let whole : iota 0 n ≡ iota 0 (n - s) ++ iota (n - s + 0) s =
      (let e : n - s + s ≡ n = omega arith in
        let e0 : n - s + 0 ≡ 0 + (n - s) = omega arith in rw (e0, iota-append 0 (n - s) s, e)) in
    let low : map (rotated_position s (n - s)) (iota 0 (n - s)) ≡ iota (s + 0) (n - s) =
      map_before_wrap s (n - s) 0 (n - s) (omega arith) in
    rw (whole, map-append, low, map_after_wrap s (n - s) 0 s, add-zero)

-- Every index below the item count stands in the order exactly once.
pub build_cyclic_order-perm : (n r : ℕ) → Perm (build_cyclic_order n r) (iota 0 n)
unfolding build_cyclic_order
build_cyclic_order-perm zero r = Perm.refl []
build_cyclic_order-perm (suc n) r =
    let s = r % suc n in
    let le : s ≤ suc n = omega arith in
    let whole : iota 0 s ++ iota s (suc n - s) ≡ iota 0 (suc n) =
      (let e : s + (suc n - s) ≡ suc n = omega arith in
        let e0 : iota s (suc n - s) ≡ iota (0 + s) (suc n - s) = rw zero-add in
        rw (e0, iota-append 0 s (suc n - s), e)) in
    rw (order_of_pos (suc n) r (omega arith), rotation-split (suc n) s le, ← whole)
      (perm_append_comm (iota s (suc n - s)) (iota 0 s))

pub build_cyclic_order-zero : (r : ℕ) → build_cyclic_order 0 r ≡ []
unfolding build_cyclic_order
build_cyclic_order-zero r = refl
