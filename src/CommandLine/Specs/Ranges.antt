-- ===== src/CommandLine/Specs/Ranges.antt =====
-- The values of a parsed spec are in the ranges of their parameter.
use mathlib.Core.Path.{subst}
use mac_os_memory_benchmark.Common.{
  ℕ, zero, suc, ◌≤◌, ◌≡◌, ◌≢◌, ◌⊎◌, inl, inr, refl, ap, ◌∙◌, sym, arith, List, [], ◌∷◌, All,
  int_max, size_max, map, Option, none, some, Option-cases,
}
use mac_os_memory_benchmark.Common.Bytes.{Bytes}
use mac_os_memory_benchmark.Common.Int.{ℤ, pos, negsuc}
use mac_os_memory_benchmark.Common.Results.{Result, ok, err, bind-ok}
use mac_os_memory_benchmark.Config.{SweepParameter, SweepValue, SweepSpec}
use mac_os_memory_benchmark.Config.SweepText.{SweepTextError, ParsedSweepText, parse_sweep_text}
use mac_os_memory_benchmark.Config.SweepText.Printed.{print_sweep_text, parse_sweep_text_iff}
use mac_os_memory_benchmark.CommandLine.{
  parse_signed_decimal_or_throw, sweep_parameter_from_string, latency_chain_mode_from_string,
  tlb_sweep_density_from_string,
}
use mac_os_memory_benchmark.CommandLine.Specs.{
  min_cache_size_kb, max_cache_size_kb, max_locality_kb, check_sweep_number, chain_mode_value,
  density_value, number_value, parse_sweep_value, parse_sweep_values, lift_text, or_unsupported,
  parse_sweep_spec, empty_value,
}

-- A number within bounds.
abbrev pub Within : ℕ → ℕ → ℤ → Type 0
Within low high (pos n) = (low ≤ n) × (n ≤ high)
Within low high (negsuc n) = ⊥

-- The range of a parameter's values. The parameters that take words have no number.
abbrev pub InRange : SweepParameter → SweepValue → Type 0
InRange SweepParameter.buffer_size_mb v = Within 0 size_max v.integer_value
InRange SweepParameter.cache_size_kb v =
    (v.integer_value ≡ pos 0) ⊎ Within min_cache_size_kb max_cache_size_kb v.integer_value
InRange SweepParameter.threads v = Within 1 int_max v.integer_value
InRange SweepParameter.latency_tlb_locality_kb v = Within 0 max_locality_kb v.integer_value
InRange SweepParameter.latency_stride_bytes v = (n : ℕ) × (v.integer_value ≡ pos (suc n))
InRange SweepParameter.latency_chain_mode v =
    latency_chain_mode_from_string v.raw_value ≡ some v.latency_chain_mode
InRange SweepParameter.tlb_density v =
    tlb_sweep_density_from_string v.raw_value ≡ some v.tlb_sweep_density

-- The number of a value is the one that its text is read as.
abbrev pub IsRead : SweepParameter → SweepValue → Type 0
IsRead SweepParameter.latency_chain_mode v = Unit
IsRead SweepParameter.tlb_density v = Unit
IsRead _ v = parse_signed_decimal_or_throw v.raw_value ≡ ok v.integer_value

abbrev number_of : Bytes → ℤ → SweepValue
number_of raw n = record (empty_value raw) { integer_value = n }

positive :
    (n : ℤ)
    → check_sweep_number SweepParameter.latency_stride_bytes n ≡ ok tt
    → (k : ℕ) × (n ≡ pos (suc k))
unfolding check_sweep_number
positive (pos zero) h = cc
positive (pos (suc n)) h = (n, refl)
positive (negsuc n) h = cc

checked-InRange :
    (parameter : SweepParameter) (raw : Bytes) (n : ℤ)
    → parameter ≢ SweepParameter.latency_chain_mode
    → parameter ≢ SweepParameter.tlb_density
    → check_sweep_number parameter n ≡ ok tt
    → InRange parameter (number_of raw n)
unfolding check_sweep_number
checked-InRange SweepParameter.buffer_size_mb raw (pos n) h k e = ground arith
checked-InRange SweepParameter.cache_size_kb raw (pos n) h k e = ground arith
checked-InRange SweepParameter.threads raw (pos n) h k e = ground arith
checked-InRange SweepParameter.latency_tlb_locality_kb raw (pos n) h k e = ground arith
checked-InRange SweepParameter.latency_stride_bytes raw n h k e = positive n e
checked-InRange SweepParameter.latency_chain_mode raw n h k e = absurd (h refl)
checked-InRange SweepParameter.tlb_density raw n h k e = absurd (k refl)
checked-InRange _ raw (negsuc n) h k e = cc

number_of-IsRead :
    (parameter : SweepParameter) (raw : Bytes) (n : ℤ)
    → parse_signed_decimal_or_throw raw ≡ ok n
    → IsRead parameter (number_of raw n)
number_of-IsRead SweepParameter.latency_chain_mode raw n e = tt
number_of-IsRead SweepParameter.tlb_density raw n e = tt
number_of-IsRead SweepParameter.buffer_size_mb raw n e = e
number_of-IsRead SweepParameter.cache_size_kb raw n e = e
number_of-IsRead SweepParameter.threads raw n e = e
number_of-IsRead SweepParameter.latency_tlb_locality_kb raw n e = e
number_of-IsRead SweepParameter.latency_stride_bytes raw n e = e

-- A parsed value keeps its text, is read from it and is in range.
abbrev IsValue : SweepParameter → Bytes → SweepValue → Type 0
IsValue parameter raw v = (v.raw_value ≡ raw) × (InRange parameter v × IsRead parameter v)

number_value-IsValue :
    (parameter : SweepParameter) (raw : Bytes) (v : SweepValue)
    → parameter ≢ SweepParameter.latency_chain_mode
    → parameter ≢ SweepParameter.tlb_density
    → number_value parameter raw ≡ ok v
    → IsValue parameter raw v
unfolding number_value
number_value-IsValue parameter raw v h k e =
    let (n, parsed, e1) = bind-ok (parse_signed_decimal_or_throw raw) _ e in
    let (u, checked, e2) = bind-ok (check_sweep_number parameter n) _ e1 in
    let same : number_of raw n ≡ v = ground (arith, e2) in
    subst (IsValue parameter raw) same
      (refl, (checked-InRange parameter raw n h k checked, number_of-IsRead parameter raw n parsed))

parse_sweep_value-IsValue :
    (parameter : SweepParameter) (raw : Bytes) (v : SweepValue)
    → parse_sweep_value parameter raw ≡ ok v
    → IsValue parameter raw v
unfolding parse_sweep_value chain_mode_value density_value
parse_sweep_value-IsValue SweepParameter.latency_chain_mode raw v e =
    elim (Option-cases (latency_chain_mode_from_string raw)) [
      | inl bad ↦ absurd (ground (arith, bad))
      | inr (mode, good) ↦
          let same : record (empty_value raw) { latency_chain_mode = mode } ≡ v =
            ground (arith, good) in
          subst (IsValue SweepParameter.latency_chain_mode raw) same (refl, (good, tt))
    ]
parse_sweep_value-IsValue SweepParameter.tlb_density raw v e =
    elim (Option-cases (tlb_sweep_density_from_string raw)) [
      | inl bad ↦ absurd (ground (arith, bad))
      | inr (density, good) ↦
          let same : record (empty_value raw) { tlb_sweep_density = density } ≡ v =
            ground (arith, good) in
          subst (IsValue SweepParameter.tlb_density raw) same (refl, (good, tt))
    ]
parse_sweep_value-IsValue SweepParameter.buffer_size_mb raw v e =
    number_value-IsValue _ raw v (cc) (cc) e
parse_sweep_value-IsValue SweepParameter.cache_size_kb raw v e =
    number_value-IsValue _ raw v (cc) (cc) e
parse_sweep_value-IsValue SweepParameter.threads raw v e = number_value-IsValue _ raw v (cc) (cc) e
parse_sweep_value-IsValue SweepParameter.latency_tlb_locality_kb raw v e =
    number_value-IsValue _ raw v (cc) (cc) e
parse_sweep_value-IsValue SweepParameter.latency_stride_bytes raw v e =
    number_value-IsValue _ raw v (cc) (cc) e

parse_sweep_values-AreValues :
    (parameter : SweepParameter) (raws : List Bytes) (values : List SweepValue)
    → parse_sweep_values parameter raws ≡ ok values
    → (map (λ (v : SweepValue). v.raw_value) values ≡ raws)
      × All (λ (v : SweepValue). InRange parameter v × IsRead parameter v) values
unfolding parse_sweep_values
parse_sweep_values-AreValues parameter [] values e =
    let same : [] ≡ values = ground arith in rw (← same) (refl, tt)
parse_sweep_values-AreValues parameter (raw ∷ raws) values e =
    let (v, first, e1) = bind-ok (parse_sweep_value parameter raw) _ e in
    let (vs, rest, e2) = bind-ok (parse_sweep_values parameter raws) _ e1 in
    let same : v ∷ vs ≡ values = ground (arith, e2) in
    let (text, range) = parse_sweep_value-IsValue parameter raw v first in
    let (texts, ranges) = parse_sweep_values-AreValues parameter raws vs rest in
    subst
      (λ l.
        (map (λ (v : SweepValue). v.raw_value) l ≡ raw ∷ raws)
        × All (λ (v : SweepValue). InRange parameter v × IsRead parameter v) l)
      same (cc (text, texts), (range, ranges))

-- The spec of a text: the text is the key, an equals sign and the values, the key names the
-- parameter, and every value is in the parameter's range and, if it is a number, read from its text.
pub record IsSpecOf (spec_text : Bytes) (spec : SweepSpec) : Type 0 where
  pub printed :
      spec_text
      ≡ print_sweep_text (record {
        key = spec.parameter_name;
        values = map (λ (v : SweepValue). v.raw_value) spec.values;
      })
  pub named : sweep_parameter_from_string spec.parameter_name ≡ some spec.parameter
  pub some_value : spec.values ≢ []
  pub in_range :
      All (λ (v : SweepValue). InRange spec.parameter v × IsRead spec.parameter v) spec.values

spec_from_parts :
    (spec_text : Bytes) (text : ParsedSweepText) (parameter : SweepParameter)
    (values : List SweepValue)
    → parse_sweep_text spec_text ≡ ok text
    → sweep_parameter_from_string text.key ≡ some parameter
    → parse_sweep_values parameter text.values ≡ ok values
    → IsSpecOf spec_text
        (record { parameter = parameter; parameter_name = text.key; values = values })
spec_from_parts spec_text text parameter values e1 e2 e3 =
    let (is, printed) = (parse_sweep_text_iff spec_text text).0 e1 in
    let (texts, ranges) = parse_sweep_values-AreValues parameter text.values values e3 in
    record {
      printed =
          printed ∙ ap (λ l. print_sweep_text (record { key = text.key; values = l })) (sym texts);
      named = e2;
      some_value = λ (none_left : values ≡ []).
          is.values_ne (sym texts ∙ ap (map (λ (v : SweepValue). v.raw_value)) none_left);
      in_range = ranges;
    }

lifted :
    (r : Result SweepTextError ParsedSweepText) (p : ParsedSweepText)
    → lift_text r ≡ ok p
    → r ≡ ok p
lifted (ok q) p e = ground arith
lifted (err x) p e = absurd (ground arith)

supported : (o : Option SweepParameter) (p : SweepParameter) → or_unsupported o ≡ ok p → o ≡ some p
supported none p e = absurd (ground arith)
supported (some q) p e = ground arith

-- A text that parses as a spec is the writing of that spec: its key, which names the parameter, and
-- the texts of its values, one or more, each with a value in the
-- parameter's range, a number being the one that its text is read as.
pub parse_sweep_spec-IsSpecOf :
    (spec_text : Bytes) (spec : SweepSpec)
    → parse_sweep_spec spec_text ≡ ok spec
    → IsSpecOf spec_text spec
unfolding parse_sweep_spec
parse_sweep_spec-IsSpecOf spec_text spec e =
    let (text, e1, r1) = bind-ok (lift_text (parse_sweep_text spec_text)) _ e in
    let (parameter, e2, r2) =
      bind-ok (or_unsupported (sweep_parameter_from_string text.key)) _ r1 in
    let (values, e3, r3) = bind-ok (parse_sweep_values parameter text.values) _ r2 in
    let same : record { parameter = parameter; parameter_name = text.key; values = values } ≡ spec =
      ground (arith, r3) in
    subst (IsSpecOf spec_text) same (
      spec_from_parts spec_text text parameter values (lifted _ text e1) (supported _ parameter e2)
        e3)
