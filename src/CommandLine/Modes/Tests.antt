-- ===== src/CommandLine/Modes/Tests.antt =====
-- Two selectors conflict, a repeated one does not.
use mac_os_memory_benchmark.Common.{◌≡◌, refl, List, [], ◌∷◌}
use mac_os_memory_benchmark.Common.Bytes.{Bytes, codes, same_bytes}
use mac_os_memory_benchmark.CommandLine.{is_option}
use mac_os_memory_benchmark.CommandLine.Modes.{
  PrimaryBenchmarkMode, mode_of, mode_option, is_selected, select_option, select_argument,
  select_from, select_primary_benchmark_mode,
}
use mac_os_memory_benchmark.CommandLine.Modes.Selected.{
  occurs, mode_of_set, select_primary_benchmark_mode-set,
}

abbrev twice_tlb : List Bytes
twice_tlb = codes "-T" ∷ codes "-o" ∷ codes "--analyze-tlb" ∷ []

twice_tlb_mode : (select_primary_benchmark_mode twice_tlb).mode ≡ PrimaryBenchmarkMode.analyze_tlb
unfolding select_primary_benchmark_mode select_from select_argument select_option is_selected
    mode_option mode_of is_option same_bytes
twice_tlb_mode = refl

select_primary_benchmark_mode-set_example :
    (select_primary_benchmark_mode twice_tlb).mode ≡ mode_of_set (λ option. occurs option twice_tlb)
select_primary_benchmark_mode-set_example = select_primary_benchmark_mode-set twice_tlb
