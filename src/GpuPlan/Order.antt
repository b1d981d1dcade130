-- ===== src/GpuPlan/Order.antt =====
-- The order of the operations of a loop.
use mathlib.Core.List.{Perm}
use mathlib.Core.List.Perm
use mac_os_memory_benchmark.Common.{ℕ, [], ◌∷◌}
use mac_os_memory_benchmark.CyclicOrder.Rotation.{build_cyclic_order-perm}
use mac_os_memory_benchmark.GpuPlan.{read, write, copy, base_order, build_gpu_operation_order}

-- Every loop runs each operation once.
pub build_gpu_operation_order-perm :
    (loop_index : ℕ) → Perm (build_gpu_operation_order loop_index) (read ∷ write ∷ copy ∷ [])
unfolding build_gpu_operation_order base_order
build_gpu_operation_order-perm loop_index =
    Perm.map base_order (build_cyclic_order-perm 3 loop_index)
