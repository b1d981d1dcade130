-- ===== src/CommandLine/General/Sound.antt =====
-- The loop over the arguments keeps the settings in range.
use mathlib.Core.Path.{subst}
use mac_os_memory_benchmark.Common.{
  ℕ, ◌≤◌, ◌≡◌, ◌⊎◌, refl, ap, arith, Bool, true, false, ◌&&◌, List, [], ◌∷◌, Option, none, some,
}
use mac_os_memory_benchmark.Common.Bytes.{Bytes}
use mac_os_memory_benchmark.Common.Results.{Result, ok, err, ◌>>◌, fail_if, bind-ok, ok_injective}
use mac_os_memory_benchmark.Config.{BenchmarkConfig}
use mac_os_memory_benchmark.CommandLine.{
  ValueError, latency_chain_mode_from_string, parse_unsigned_decimal_or_throw,
}
use mac_os_memory_benchmark.CommandLine.Specs.{
  bad_buffer_size, bad_count, bad_locality, max_locality_kb, parse_sweep_spec,
}
use mac_os_memory_benchmark.CommandLine.Options.{
  ValueOption, Flag, Argument, ParseError, argument_of, duplicate_option,
}
use mac_os_memory_benchmark.CommandLine.General.{
  Parse, number_in, set_value, set_flag, take_value, end_of_arguments, Outcome, help_printed,
  parsed, parse_options, bad_positive, or_invalid_mode, of_value, mark_seen, stands_once, has_seen,
}
use mac_os_memory_benchmark.CommandLine.General.Settings.{
  IsCount, IsSound, within_int, positive_in, locality_in, more_specs,
}

-- What holds between the arguments, on a machine with this many cores.
pub record IsSoundParse (cores : ℕ) (p : Parse) : Type 0 where
  pub config_sound : IsSound p.config
  pub all_cores : p.config.num_threads ≡ cores
  pub threads_count :
      (p.requested_threads ≡ none) ⊎ ((n : ℕ) × (p.requested_threads ≡ some n) × IsCount n)
  pub locality_fits :
      (p.requested_latency_tlb_locality_kb ≡ none)
      ⊎ ((n : ℕ) × (p.requested_latency_tlb_locality_kb ≡ some n) × (n ≤ max_locality_kb))

guarded :
    (test : Bool) (error : ParseError) (next : Result ParseError Outcome) (o : Outcome)
    → (fail_if test error >> next) ≡ ok o
    → next ≡ ok o
guarded true error next o e = absurd (ground arith)
guarded false error next o e = e

module _ (cores : ℕ) where
  set_value-IsSoundParse :
      (option : ValueOption) (value : Bytes) (p q : Parse)
      → IsSoundParse cores p
      → set_value option value p ≡ ok q
      → IsSoundParse cores q
  unfolding set_value
  set_value-IsSoundParse ValueOption.iterations value p q h e =
      let (n, got, e1) = bind-ok (number_in bad_count _ value) _ e in
      subst (IsSoundParse cores) (ok_injective e1) (ground (arith, within_int _ value n got))
  set_value-IsSoundParse ValueOption.count value p q h e =
      let (n, got, e1) = bind-ok (number_in bad_count _ value) _ e in
      subst (IsSoundParse cores) (ok_injective e1) (ground (arith, within_int _ value n got))
  set_value-IsSoundParse ValueOption.latency_samples value p q h e =
      let (n, got, e1) = bind-ok (number_in bad_count _ value) _ e in
      subst (IsSoundParse cores) (ok_injective e1) (ground (arith, within_int _ value n got))
  set_value-IsSoundParse ValueOption.threads value p q h e =
      let (n, got, e1) = bind-ok (number_in bad_count _ value) _ e in
      subst (IsSoundParse cores) (ok_injective e1) (ground (arith, within_int _ value n got))
  set_value-IsSoundParse ValueOption.latency_stride value p q h e =
      let (n, got, e1) = bind-ok (number_in bad_positive _ value) _ e in
      subst (IsSoundParse cores) (ok_injective e1) (ground (arith, positive_in _ value n got))
  set_value-IsSoundParse ValueOption.sweep_max_runs value p q h e =
      let (n, got, e1) = bind-ok (number_in bad_positive _ value) _ e in
      subst (IsSoundParse cores) (ok_injective e1) (ground (arith, positive_in _ value n got))
  set_value-IsSoundParse ValueOption.latency_tlb_locality value p q h e =
      let (n, got, e1) = bind-ok (number_in bad_locality _ value) _ e in
      subst (IsSoundParse cores) (ok_injective e1) (ground (arith, locality_in _ value n got))
  set_value-IsSoundParse ValueOption.buffer_size value p q h e =
      let (n, got, e1) = bind-ok (number_in bad_buffer_size _ value) _ e in
      subst (IsSoundParse cores) (ok_injective e1) (ground arith)
  set_value-IsSoundParse ValueOption.latency_chain_mode value p q h e =
      let (mode, got, e1) = bind-ok (or_invalid_mode (latency_chain_mode_from_string value)) _ e in
      subst (IsSoundParse cores) (ok_injective e1) (ground arith)
  set_value-IsSoundParse ValueOption.sweep value p q h e =
      let (spec, got, e1) = bind-ok (parse_sweep_spec value) _ e in
      subst (IsSoundParse cores) (ok_injective e1)
        (ground (arith, more_specs p.config.sweep_specs spec))
  set_value-IsSoundParse ValueOption.seed value p q h e =
      let (n, got, e1) = bind-ok (parse_unsigned_decimal_or_throw value) _ e in
      subst (IsSoundParse cores) (ok_injective e1) (ground arith)
  set_value-IsSoundParse ValueOption.output value p q h e =
      subst (IsSoundParse cores) (ok_injective e) (ground arith)
  set_value-IsSoundParse ValueOption.cache_size value p q h e =
      subst (IsSoundParse cores) (ok_injective e) h
  set_value-IsSoundParse ValueOption.tlb_density value p q h e =
      subst (IsSoundParse cores) (ok_injective e) h

  of_value-ok :
      (option : ValueOption) (r : Result ValueError Parse) (q : Parse)
      → of_value option r ≡ ok q
      → r ≡ ok q
  of_value-ok option (ok p) q e = ap ok (ok_injective e)
  of_value-ok option (err x) q e = absurd (ground arith)

  take_value-IsSoundParse :
      (option : ValueOption) (value : Bytes) (p q : Parse)
      → IsSoundParse cores p
      → take_value option value p ≡ ok q
      → IsSoundParse cores q
  unfolding take_value
  take_value-IsSoundParse option value p q h e =
      let (r, got, e1) = bind-ok (of_value option (set_value option value p)) _ e in
      let sound = set_value-IsSoundParse option value p r h (of_value-ok option _ r got) in
      subst (IsSoundParse cores) (ok_injective e1) (marked r sound)
    where
      marked : (r : Parse) → IsSoundParse cores r → IsSoundParse cores (mark_seen option r)
      marked r h = ground arith

  abbrev with_config : Parse → BenchmarkConfig → Parse
  with_config p c = record p { config = c }

  set_flag-IsSoundParse :
      (f : Flag) (p : Parse) (c : BenchmarkConfig)
      → IsSoundParse cores p
      → set_flag f p.config ≡ ok c
      → IsSoundParse cores (with_config p c)
  unfolding set_flag
  set_flag-IsSoundParse f p c h e = ground arith

  -- An outcome: the configuration when help was asked for, or the parse.
  abbrev pub IsSoundOutcome : Outcome → Type 0
  IsSoundOutcome (help_printed c) = IsSound c × (c.num_threads ≡ cores)
  IsSoundOutcome (parsed p) = IsSoundParse cores p

  end-IsSoundOutcome :
      (waiting : Option ValueOption) (p : Parse) (o : Outcome)
      → IsSoundParse cores p
      → end_of_arguments waiting p ≡ ok o
      → IsSoundOutcome o
  unfolding end_of_arguments
  end-IsSoundOutcome none p o h e = subst IsSoundOutcome (ok_injective e) h
  end-IsSoundOutcome (some ValueOption.cache_size) p o h e = subst IsSoundOutcome (ok_injective e) h
  end-IsSoundOutcome (some _) p o h e = absurd (ground arith)

  argument-IsSoundOutcome :
      (argument : Argument) (arg : Bytes) (args : List Bytes) (p : Parse) (o : Outcome)
      → argument_of arg ≡ argument
      → IsSoundParse cores p
      → ((waiting : Option ValueOption) (q : Parse)
          → IsSoundParse cores q
          → parse_options args waiting q ≡ ok o
          → IsSoundOutcome o)
      → parse_options (arg ∷ args) none p ≡ ok o
      → IsSoundOutcome o
  unfolding parse_options
  argument-IsSoundOutcome (Argument.takes_value option) arg args p o same h more e =
      let e' = rw (same, parse_options) at e in
      let e1 =
        guarded (stands_once option && has_seen option p.seen) (duplicate_option option)
          (parse_options args (some option) p) o e' in
      more (some option) p h e1
  argument-IsSoundOutcome (Argument.flag f) arg args p o same h more e =
      let e' = rw (same, parse_options) at e in
      let (c, set, e1) = bind-ok (set_flag f p.config) _ e' in
      more none (with_config p c) (set_flag-IsSoundParse f p c h set) e1
  argument-IsSoundOutcome Argument.help arg args p o same h more e =
      let e' = rw (same, parse_options) at e in
      subst IsSoundOutcome (ok_injective e') (ground arith)
  argument-IsSoundOutcome Argument.unknown arg args p o same h more e =
      let e' = rw (same, parse_options) at e in absurd (ground (arith, e'))

  pub parse_options-IsSoundOutcome :
      (args : List Bytes) (waiting : Option ValueOption) (p : Parse) (o : Outcome)
      → IsSoundParse cores p
      → parse_options args waiting p ≡ ok o
      → IsSoundOutcome o
  unfolding parse_options
  parse_options-IsSoundOutcome [] waiting p o h e = end-IsSoundOutcome waiting p o h e
  parse_options-IsSoundOutcome (value ∷ args) (some option) p o h e =
      let (q, taken, e1) = bind-ok (take_value option value p) _ e in
      parse_options-IsSoundOutcome args none q o (take_value-IsSoundParse option value p q h taken)
        e1
  parse_options-IsSoundOutcome (arg ∷ args) none p o h e =
      argument-IsSoundOutcome (argument_of arg) arg args p o refl h
        (λ waiting q. parse_options-IsSoundOutcome args waiting q o) e
