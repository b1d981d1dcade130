-- ===== src/Lib.antt =====
-- The configuration and the planning core of the macOS memory benchmark: how a command line becomes
-- a validated configuration with its buffer sizes, how a sweep becomes runs, the partition of a
-- buffer among workers, and the work plans of the standard, the pattern and the GPU benchmarks.
--
-- A command goes through the parts in this order. select_primary_benchmark_mode of
-- src/core/config/mode_selector.cpp finds its mode (CommandLine.Modes). parse_arguments of
-- src/core/config/argument_parser.cpp makes a BenchmarkConfig (Config) of it: CommandLine has the
-- integers and the words, CommandLine.Specs parse_sweep_spec, CommandLine.Options the options,
-- CommandLine.General the two passes over them, CommandLine.Platform what is taken from the system,
-- and CommandLine.Tlb the options of the TLB analysis. Config.SweepText models
-- src/core/config/sweep_utils.cpp, the text of a sweep and its run count. validate_config of
-- src/core/config/config_validator.cpp (Validation) refuses it or caps the size of its buffer;
-- src/core/config/buffer_calculator.cpp (Buffers) sizes the cache buffers, and
-- src/core/memory/buffer_allocator.cpp (Allocation) computes the peak of the memory that the phases
-- need. A sweep is expanded and run by src/benchmark/sweep_runner.cpp: SweepRuns has the
-- assignments and the configuration of a run, SweepRuns.Execution the coordinator
-- execute_sweep_plan. A text is a list of byte values, an exception or an exit code with its
-- message a Result.
--
-- A benchmark command first makes a plan: how many workers run, which range of the buffer each of
-- them has, how many passes or accesses are timed, and how many bytes that is. The measured loops
-- then trust the plan: they index memory without tests of their own, and divide its totals by the
-- time. A plan is computed from sizes that the user chose, in 64-bit arithmetic, so an overflow or
-- a gap between two ranges would give a wrong figure or a wild access.
--
-- Numeric models src/utils/numeric_utils.cpp: a function that returns bool and writes an
-- out-parameter returns an Option. CyclicOrder models src/utils/cyclic_order.cpp, the rotation from
-- which every scheduler takes its order. Partition models the two boundary builders of
-- src/benchmark/benchmark_work_plan.cpp and src/pattern_benchmark/pattern_work_plan.cpp.
-- BenchmarkPlan models the rest of src/benchmark/benchmark_work_plan.cpp: the bandwidth planner
-- build_benchmark_bandwidth_work_plan, the latency planner build_benchmark_latency_work_plan, and
-- the phase schedule with its stop queries. PatternPlan models
-- src/pattern_benchmark/pattern_work_plan.cpp: PatternPlan itself has the worker ranges,
-- PatternPlan.Metrics has calculate_phase_metrics and set_strided_pattern_passes, and
-- PatternPlan.Search has build_strided_pattern_work_plan with its binary search. Seeds models
-- splitmix64 of src/utils/seed_utils.cpp. GpuPlan models src/gpu_bandwidth/gpu_work_plan.cpp: its
-- seeds and order, GpuPlan.Limits the pass limits, GpuPlan.Grid build_gpu_work_plan. Durations has
-- the quality classes of a measured duration of both planners, and the benchmark seed. TlbPolicy
-- models src/benchmark/tlb_runtime_policy.cpp: the access counts of the TLB analysis and its memory
-- estimate. TlbSweep models src/benchmark/tlb_sweep_planner.cpp: the base grid of localities and
-- the refinement points of a boundary. TlbScheduler models
-- src/benchmark/tlb_measurement_scheduler.cpp: the balanced rounds and their execution.
-- PatternPlan.Random has build_random_worker_indices.
--
-- A size_t is a native number, and arithmetic that may wrap is written with its wrap (Common.Words:
-- add_size, sub_size, mul_size); a theorem that needs it asks that its arguments are at most
-- size_max. A function that changes a plan takes the plan and returns the new one; one that returns
-- bool returns an Option. The status texts of src/output/console/messages are constructors.
--
-- Two loops run on fuel. The binary search of PatternPlan.Search halves a range of pass counts
-- below 2 ^ 31, so the 31 units of search_fuel are enough, and what follows running out is never
-- reached. split_values of Config.SweepText takes the length of the text and one as its fuel, since
-- each value is followed by a comma or by the end. The loops over workers and candidates are
-- structural recursion.
--
-- The floating-point operations of the count calibration are a parameter (Numeric.Floating), of
-- which only that a conversion to size_t fits size_t is used, and so are those of the buffer sizes
-- (Buffers.Scaling) and the factor of the memory limit (Validation.Machine). What the system
-- answers is a parameter too: Validation.Machine has the page size and the free memory,
-- CommandLine.Platform the processor, its cores and caches and the seed that would be generated,
-- the memory manager is the function allocate of Allocation, and the hooks of a sweep answer by how
-- often they were called. Not modelled: the assembly and Metal kernels, threads, timers, the
-- mapping of memory, JSON and all other output, and the test hooks.
pub mod Allocation
pub mod BenchmarkPlan
pub mod Buffers
pub mod CommandLine
pub mod Common
pub mod Config
pub mod CyclicOrder
pub mod Durations
pub mod GpuPlan
pub mod Numeric
pub mod Partition
pub mod PatternPlan
pub mod Seeds
pub mod SweepRuns
pub mod TlbPolicy
pub mod TlbScheduler
pub mod TlbSweep
pub mod Validation
