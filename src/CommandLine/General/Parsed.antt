-- ===== src/CommandLine/General/Parsed.antt =====
-- What a parsed configuration satisfies before the validation.
use mathlib.Core.Path.{subst}
use mac_os_memory_benchmark.Common.{ℕ, ◌≤◌, ◌≡◌, ◌⊎◌, arith, false, List, Option, none, some}
use mac_os_memory_benchmark.Common.Bytes.{Bytes}
use mac_os_memory_benchmark.Common.Results.{ok, bind-ok, ok_injective}
use mac_os_memory_benchmark.Config.{BenchmarkConfig, default_config}
use mac_os_memory_benchmark.CommandLine.Platform.{
  Platform, finish_buffer_size, finish_threads, finish_locality, finish_seed, prepare, with_caches,
  with_platform, set_cache_size,
}
use mac_os_memory_benchmark.CommandLine.General.{
  Outcome, help_printed, parsed, parse_options, finish_parse, finish_outcome,
  parse_general_arguments, find_cache_size, start_parse,
}
use mac_os_memory_benchmark.CommandLine.General.Settings.{IsCount, IsSound}
use mac_os_memory_benchmark.CommandLine.General.Sound.{
  IsSoundParse, IsSoundOutcome, parse_options-IsSoundOutcome,
}

-- A parsed command line: the settings are in range, and there are no more threads than cores, and
-- one at least.
pub record IsParsed (s : Platform) (c : BenchmarkConfig) : Type 0 where
  pub settings : IsSound c
  pub threads_capped : c.num_threads ≤ s.total_logical_cores
  pub some_thread : (s.total_logical_cores ≡ 0) ⊎ (1 ≤ c.num_threads)

finish_buffer_size-IsParsed :
    (s : Platform) (mb : Option ℕ) (c : BenchmarkConfig)
    → IsParsed s c
    → IsParsed s (finish_buffer_size mb c)
unfolding finish_buffer_size
finish_buffer_size-IsParsed s none c h = h
finish_buffer_size-IsParsed s (some mb) c h = ground arith

finish_locality-IsParsed :
    (s : Platform) (kb : Option ℕ) (c : BenchmarkConfig)
    → IsParsed s c
    → IsParsed s (finish_locality kb c)
unfolding finish_locality
finish_locality-IsParsed s none c h = h
finish_locality-IsParsed s (some kb) c h = ground arith

finish_threads-IsParsed :
    (s : Platform) (requested : Option ℕ) (c : BenchmarkConfig)
    → (requested ≡ none) ⊎ ((n : ℕ) × (requested ≡ some n) × IsCount n)
    → IsParsed s c
    → IsParsed s (finish_threads s.total_logical_cores requested c)
unfolding finish_threads
finish_threads-IsParsed s none c k h = h
finish_threads-IsParsed s (some n) c k h = ground arith

finish_seed-IsParsed :
    (s : Platform) (generated : ℕ) (given : Option ℕ) (c : BenchmarkConfig)
    → IsParsed s c
    → IsParsed s (finish_seed generated given c)
unfolding finish_seed
finish_seed-IsParsed s generated none c h = ground arith
finish_seed-IsParsed s generated (some n) c h = ground arith

start-IsParsed :
    (s : Platform) (c : BenchmarkConfig)
    → IsSound c
    → c.num_threads ≡ s.total_logical_cores
    → IsParsed s c
start-IsParsed s c h e = record {
  settings = h;
  threads_capped = omega arith;
  some_thread = ground arith;
}

finish_outcome-IsParsed :
    (s : Platform) (o : Outcome)
    → IsSoundOutcome s.total_logical_cores o
    → IsParsed s (finish_outcome s o)
unfolding finish_outcome finish_parse
finish_outcome-IsParsed s (help_printed c) h = start-IsParsed s c h.0 h.1
finish_outcome-IsParsed s (parsed p) h = finish_seed-IsParsed s _ p.parsed_general_seed _ (
    finish_locality-IsParsed s p.requested_latency_tlb_locality_kb _ (
      finish_threads-IsParsed s p.requested_threads _ h.threads_count (
        finish_buffer_size-IsParsed s p.requested_buffer_size_mb _
          (start-IsParsed s p.config h.config_sound h.all_cores))))

prepare-IsSoundParse :
    (s : Platform) (kb : Option ℕ)
    → IsSoundParse s.total_logical_cores (start_parse (prepare s kb default_config))
unfolding prepare with_caches with_platform set_cache_size
prepare-IsSoundParse s none = ground arith
prepare-IsSoundParse s (some kb) = ground arith

-- Whatever the arguments after a fresh configuration: if they parse, also as a call for help, the
-- iterations, loops and samples are positive values of `int`, the stride and the maximum of sweep
-- runs are positive, the two modes exclude each other, a sweep has a spec, and there are no more
-- threads than cores and, if there is a core, one at least.
pub parse_general_arguments-IsParsed :
    (s : Platform) (args : List Bytes) (c : BenchmarkConfig)
    → parse_general_arguments s args default_config ≡ ok c
    → IsParsed s c
unfolding parse_general_arguments
parse_general_arguments-IsParsed s args c e =
    let (kb, found, e1) = bind-ok (find_cache_size args false none) _ e in
    let (o, run, e2) =
      bind-ok (parse_options args none (start_parse (prepare s kb default_config))) _ e1 in
    subst (IsParsed s) (ok_injective e2) (
      finish_outcome-IsParsed s o (
        parse_options-IsSoundOutcome s.total_logical_cores args none _ o (prepare-IsSoundParse s kb)
          run))
