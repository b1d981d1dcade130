-- ===== src/CommandLine/Modes/Selected.antt =====
-- The selected mode depends only on which options occur, not on their order or repetition.
use mathlib.Core.Path.{fun_ext}
use mac_os_memory_benchmark.Common.{
  ℕ, ◌+◌, ◌≡◌, inl, inr, refl, ap, ◌∙◌, arith, Bool, false, ◌||◌, not, List, [], ◌∷◌, ◌++◌, Option,
  none, some, ◌==◌, if◌then◌else◌, length, Bool-cases,
}
use mac_os_memory_benchmark.Common.Bytes.{Bytes}
use mac_os_memory_benchmark.CommandLine.Modes.{
  PrimaryBenchmarkMode, none_selected, standard, patterns, analyze_tlb, analyze_core_to_core,
  gpu_bandwidth, conflict, ModeOption, benchmark, patterns_option, tlb, core_to_core, gpu, mode_of,
  mode_option, mode_index, PrimaryModeSelection, is_selected, select_option, select_argument,
  select_from, select_primary_benchmark_mode,
}

-- Whether an option is an argument.
abbrev is_mode_option : ModeOption → Option ModeOption → Bool
is_mode_option option none = false
is_mode_option option (some other) = mode_index option == mode_index other

pub occurs : ModeOption → List Bytes → Bool
occurs option [] = false
occurs option (argument ∷ arguments) =
    is_mode_option option (mode_option argument) || occurs option arguments

abbrev bit : Bool → ℕ
bit b = if b then 1 else 0

-- The mode of a set of options: none, the mode of a single one, or a conflict.
pub mode_of_set : (ModeOption → Bool) → PrimaryBenchmarkMode
mode_of_set present =
    let count =
      bit (present benchmark)
      + (bit (present patterns_option)
          + (bit (present tlb) + (bit (present core_to_core) + bit (present gpu)))) in
    if count == 0
    then none_selected
    else if not (count == 1)
    then conflict
    else if present benchmark
    then standard
    else if present patterns_option
    then patterns
    else if present tlb
    then analyze_tlb
    else if present core_to_core
    then analyze_core_to_core
    else gpu_bandwidth

-- The mode of the options that were selected, which are distinct.
abbrev mode_of_list : List ModeOption → PrimaryBenchmarkMode
mode_of_list [] = none_selected
mode_of_list (option ∷ []) = mode_of option
mode_of_list (option ∷ (other ∷ others)) = conflict

abbrev AreDistinct : List ModeOption → Type 0
AreDistinct [] = Unit
AreDistinct (option ∷ options) = (is_selected option options ≡ false) × AreDistinct options

mode_of_list-set :
    (options : List ModeOption)
    → AreDistinct options
    → mode_of_list options ≡ mode_of_set (λ option. is_selected option options)
unfolding is_selected mode_of_set mode_of
mode_of_list-set [] d = refl
mode_of_list-set (benchmark ∷ []) d = refl
mode_of_list-set (patterns_option ∷ []) d = refl
mode_of_list-set (tlb ∷ []) d = refl
mode_of_list-set (core_to_core ∷ []) d = refl
mode_of_list-set (gpu ∷ []) d = refl
mode_of_list-set (option ∷ (other ∷ others)) d = two option other others d
  where
    two :
        (option other : ModeOption) (others : List ModeOption)
        → AreDistinct (option ∷ (other ∷ others))
        → conflict ≡ mode_of_set (λ o. is_selected o (option ∷ (other ∷ others)))
    two option other others d = ground arith

is_selected-append :
    (option added : ModeOption) (options : List ModeOption)
    → is_selected option (options ++ added ∷ [])
      ≡ (is_selected option options || mode_index option == mode_index added)
unfolding is_selected
is_selected-append option added [] = ground arith
is_selected-append option added (other ∷ options) =
    ground (arith, is_selected-append option added options)

AreDistinct-append :
    (added : ModeOption) (options : List ModeOption)
    → AreDistinct options
    → is_selected added options ≡ false
    → AreDistinct (options ++ added ∷ [])
unfolding is_selected
AreDistinct-append added [] d n = (refl, tt)
AreDistinct-append added (option ∷ options) d n = (
  ground (arith, is_selected-append option added options),
  AreDistinct-append added options d.1 (ground arith),
)

-- What holds during the scan.
record IsSelection (s : PrimaryModeSelection) : Type 0 where
  distinct : AreDistinct s.selected_options
  selects : s.mode ≡ mode_of_list s.selected_options

mode-append :
    (options : List ModeOption) (added : ModeOption)
    → (if length options == 0 then mode_of added else conflict)
      ≡ mode_of_list (options ++ added ∷ [])
mode-append [] added = refl
mode-append (option ∷ []) added = ground arith
mode-append (option ∷ (other ∷ options)) added = ground arith

select_argument-IsSelection :
    (option : Option ModeOption) (s : PrimaryModeSelection)
    → IsSelection s
    → IsSelection (select_argument option s)
unfolding select_argument select_option
select_argument-IsSelection none s h = h
select_argument-IsSelection (some option) s h =
    elim (Bool-cases (is_selected option s.selected_options)) [
      | inl old ↦ rw old h
      | inr new ↦ rw new (record {
        distinct = AreDistinct-append option s.selected_options h.distinct new;
        selects = mode-append s.selected_options option;
      })
    ]

same_option-selected :
    (option other : ModeOption) (options : List ModeOption)
    → mode_index option ≡ mode_index other
    → is_selected option options ≡ is_selected other options
unfolding is_selected
same_option-selected option other [] e = refl
same_option-selected option other (o ∷ options) e =
    ground (arith, same_option-selected option other options)

select_argument-selected :
    (option : ModeOption) (argument : Option ModeOption) (s : PrimaryModeSelection)
    → is_selected option (select_argument argument s).selected_options
      ≡ (is_selected option s.selected_options || is_mode_option option argument)
unfolding select_argument select_option
select_argument-selected option none s = ground arith
select_argument-selected option (some other) s =
    elim (Bool-cases (is_selected other s.selected_options)) [
      | inl old ↦ rw old (ground (arith, same_option-selected option other s.selected_options))
      | inr new ↦ rw new (is_selected-append option other s.selected_options)
    ]

or_regroup : (a b c : Bool) → ((a || b) || c) ≡ (a || (b || c))
or_regroup a b c = ground arith

select_from-selected :
    (option : ModeOption) (arguments : List Bytes) (s : PrimaryModeSelection)
    → is_selected option (select_from arguments s).selected_options
      ≡ (is_selected option s.selected_options || occurs option arguments)
unfolding select_from occurs
select_from-selected option [] s = ground arith
select_from-selected option (argument ∷ arguments) s =
    select_from-selected option arguments (select_argument (mode_option argument) s)
    ∙ (ap (λ b. b || occurs option arguments)
          (select_argument-selected option (mode_option argument) s)
        ∙ or_regroup (is_selected option s.selected_options)
            (is_mode_option option (mode_option argument)) (occurs option arguments))

select_from-IsSelection :
    (arguments : List Bytes) (s : PrimaryModeSelection)
    → IsSelection s
    → IsSelection (select_from arguments s)
unfolding select_from
select_from-IsSelection [] s h = h
select_from-IsSelection (argument ∷ arguments) s h =
    select_from-IsSelection arguments _ (select_argument-IsSelection (mode_option argument) s h)

-- The mode is that of the set of the options that occur: none without one, its own for a single one
-- however often it stands, and a conflict for two or more, in whatever order.
pub select_primary_benchmark_mode-set :
    (arguments : List Bytes)
    → (select_primary_benchmark_mode arguments).mode
      ≡ mode_of_set (λ option. occurs option arguments)
unfolding select_primary_benchmark_mode is_selected
select_primary_benchmark_mode-set arguments =
    let start : PrimaryModeSelection = record { mode = none_selected; selected_options = [] } in
    let h = select_from-IsSelection arguments start (record { distinct = tt; selects = refl }) in
    h.selects
    ∙ (mode_of_list-set _ h.distinct
        ∙ ap mode_of_set (fun_ext (λ option. select_from-selected option arguments start)))
