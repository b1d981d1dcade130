-- ===== src/CommandLine/Modes.antt =====
-- The primary mode of a command: src/core/config/mode_selector.cpp.
pub mod Selected
mod Tests
use Prim.Native.String.{String}
use mac_os_memory_benchmark.Common.{
  ℕ, Bool, true, false, ◌&&◌, ◌||◌, not, List, [], ◌∷◌, ◌++◌, Option, none, some, ◌==◌,
  if◌then◌else◌, length,
}
use mac_os_memory_benchmark.Common.Bytes.{Bytes}
use mac_os_memory_benchmark.CommandLine.{is_option}

pub data PrimaryBenchmarkMode : Type 0 where
  none_selected standard patterns analyze_tlb analyze_core_to_core : PrimaryBenchmarkMode
  gpu_bandwidth conflict : PrimaryBenchmarkMode

pub data ModeOption : Type 0 where
  benchmark patterns_option tlb core_to_core gpu : ModeOption

-- The table of the options, in its order.
pub mode_of : ModeOption → PrimaryBenchmarkMode
mode_of benchmark = standard
mode_of patterns_option = patterns
mode_of tlb = analyze_tlb
mode_of core_to_core = analyze_core_to_core
mode_of gpu = gpu_bandwidth

pub mode_option : Bytes → Option ModeOption
mode_option argument =
    if is_option argument "-B" "--benchmark"
    then some benchmark
    else if is_option argument "-P" "--patterns"
    then some patterns_option
    else if is_option argument "-T" "--analyze-tlb"
    then some tlb
    else if is_option argument "-C" "--analyze-core2core"
    then some core_to_core
    else if is_option argument "-G" "--gpu-bandwidth"
    then some gpu
    else none

abbrev pub mode_index : ModeOption → ℕ
mode_index benchmark = 0
mode_index patterns_option = 1
mode_index tlb = 2
mode_index core_to_core = 3
mode_index gpu = 4

-- The `selected_options`, which hold each option whose `seen` flag is set, in order.
pub record PrimaryModeSelection : Type 0 where
  pub mode : PrimaryBenchmarkMode
  pub selected_options : List ModeOption

pub is_selected : ModeOption → List ModeOption → Bool
is_selected option [] = false
is_selected option (other ∷ others) =
    mode_index option == mode_index other || is_selected option others

pub select_option : ModeOption → PrimaryModeSelection → PrimaryModeSelection
select_option option s = if is_selected option s.selected_options then s else record {
  mode = if length s.selected_options == 0 then mode_of option else conflict;
  selected_options = s.selected_options ++ option ∷ [];
}

pub select_argument : Option ModeOption → PrimaryModeSelection → PrimaryModeSelection
select_argument none s = s
select_argument (some option) s = select_option option s

pub select_from : List Bytes → PrimaryModeSelection → PrimaryModeSelection
select_from [] s = s
select_from (argument ∷ arguments) s =
    select_from arguments (select_argument (mode_option argument) s)

pub select_primary_benchmark_mode : List Bytes → PrimaryModeSelection
select_primary_benchmark_mode arguments =
    select_from arguments (record { mode = none_selected; selected_options = [] })
