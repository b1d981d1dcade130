-- ===== src/CyclicOrder.antt =====
-- The deterministic rotation that the benchmark schedulers share: src/utils/cyclic_order.cpp.
pub mod Rotation
mod Tests
use mac_os_memory_benchmark.Common.{ℕ, ◌+◌, ◌-◌, ◌%◌, List, [], map, iota, ltb, ◌==◌, if◌then◌else◌}

-- What the loop pushes at `position`.
pub rotated_position : ℕ → ℕ → ℕ → ℕ
rotated_position start suffix_count position =
    if ltb position suffix_count then start + position else position - suffix_count

pub build_cyclic_order : ℕ → ℕ → List ℕ
build_cyclic_order item_count rotation_index =
    if item_count == 0
    then []
    else (let start = rotation_index % item_count in
        map (rotated_position start (item_count - start)) (iota 0 item_count))
