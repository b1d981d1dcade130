-- ===== src/CyclicOrder/Tests.antt =====
-- Runs of the rotation, and its theorems at concrete inputs.
use mathlib.Core.List.{Perm}
use mac_os_memory_benchmark.Common.{◌≡◌, refl, [], ◌∷◌, iota}
use mac_os_memory_benchmark.CyclicOrder.{rotated_position, build_cyclic_order}
use mac_os_memory_benchmark.CyclicOrder.Rotation.{build_cyclic_order-perm}

second_rotation : build_cyclic_order 5 7 ≡ 2 ∷ 3 ∷ 4 ∷ 0 ∷ 1 ∷ []
unfolding build_cyclic_order rotated_position
second_rotation = refl

build_cyclic_order-perm_example : Perm (build_cyclic_order 5 7) (iota 0 5)
build_cyclic_order-perm_example = build_cyclic_order-perm 5 7
