-- ===== src/Partition/Tests.antt =====
-- Runs of the partition, and its theorems at concrete inputs.
use mac_os_memory_benchmark.Common.{◌≡◌, refl, arith, [], ◌∷◌}
use mac_os_memory_benchmark.Partition.{
  chunk_ends, align_boundary, settle_boundaries, build_boundaries, build_aligned_boundaries,
}
use mac_os_memory_benchmark.Partition.Offsets.{Ascends}
use mac_os_memory_benchmark.Partition.Ranges.{
  IsPartition, build_boundaries-IsPartition, build_boundaries-strict, build_aligned_boundaries-eq,
}

three_workers : build_boundaries 1000 3 ≡ 384 ∷ 704 ∷ 1000 ∷ []
unfolding build_boundaries chunk_ends align_boundary settle_boundaries
three_workers = refl

build_boundaries-IsPartition_example : IsPartition 1000 3 (build_boundaries 1000 3)
build_boundaries-IsPartition_example =
    build_boundaries-IsPartition 1000 3 (omega arith) (omega arith)

build_boundaries-strict_example : Ascends 1 1000 0 (build_boundaries 1000 3)
build_boundaries-strict_example =
    build_boundaries-strict 1000 3 (omega arith) (omega arith) (omega arith) (omega arith)

build_aligned_boundaries-eq_example : build_aligned_boundaries 1000 3 ≡ build_boundaries 1000 3
build_aligned_boundaries-eq_example = build_aligned_boundaries-eq 1000 3 (omega arith) (omega arith)
