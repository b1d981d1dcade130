-- ===== src/SweepRuns/Choices.antt =====
-- The assignments are all choices of one value from each spec.
use mathlib.Core.List.{append_assoc, append-nil, map-append}
use mathlib.Core.Path.{subst}
use mac_os_memory_benchmark.Common.{
  ◌*◌, ◌≡◌, ◌⊎◌, ◌↔◌, inl, inr, refl, ap, sym, ◌∙◌, arith, List, [], ◌∷◌, ◌++◌, map, length,
  length-append, length-map, true, size_max, ◌<◌, ◌≤◌,
}
use mac_os_memory_benchmark.Common.Results.{ok}
use mac_os_memory_benchmark.Config.{SweepValue, SweepSpec, BenchmarkConfig}
use mac_os_memory_benchmark.Config.SweepText.Count.{product_map}
use mac_os_memory_benchmark.Validation.{Machine, validate_config}
use mac_os_memory_benchmark.Validation.Sweep.{validate_config-IsSweep}
use mac_os_memory_benchmark.SweepRuns.{
  SweepAssignment, for_each, append_assignments_recursive, build_sweep_assignments,
}

abbrev pub Among : {A : Type 0} → A → List A → Type 0
Among a [] = ⊥
Among a (x ∷ xs) = (a ≡ x) ⊎ Among a xs

-- One value of each spec, in the order of the specs.
abbrev pub IsChoice : List SweepSpec → List SweepAssignment → Type 0
IsChoice [] [] = Unit
IsChoice [] (a ∷ as_) = ⊥
IsChoice (spec ∷ specs) [] = ⊥
IsChoice (spec ∷ specs) (a ∷ as_) = (a.spec ≡ spec) × Among a.value spec.values × IsChoice specs as_

-- The choices, without the accumulators.
with_value : SweepSpec → List (List SweepAssignment) → List SweepValue → List (List SweepAssignment)
with_value spec rest [] = []
with_value spec rest (value ∷ values) =
    map (λ as_. record { spec = spec; value = value } ∷ as_) rest ++ with_value spec rest values

choices : List SweepSpec → List (List SweepAssignment)
choices [] = [] ∷ []
choices (spec ∷ specs) = with_value spec (choices specs) spec.values

Among-append-left : {A : Type 0} (a : A) (xs ys : List A) → Among a xs → Among a (xs ++ ys)
Among-append-left a [] ys h = absurd h
Among-append-left a (x ∷ xs) ys (inl e) = inl e
Among-append-left a (x ∷ xs) ys (inr h) = inr (Among-append-left a xs ys h)

Among-append-right : {A : Type 0} (a : A) (xs ys : List A) → Among a ys → Among a (xs ++ ys)
Among-append-right a [] ys h = h
Among-append-right a (x ∷ xs) ys h = inr (Among-append-right a xs ys h)

Among-append : {A : Type 0} (a : A) (xs ys : List A) → Among a (xs ++ ys) → Among a xs ⊎ Among a ys
Among-append a [] ys h = inr h
Among-append a (x ∷ xs) ys (inl e) = inl (inl e)
Among-append a (x ∷ xs) ys (inr h) = elim (Among-append a xs ys h) [
  | inl left ↦ inl (inr left)
  | inr right ↦ inr right
]

map_push :
    (current : List SweepAssignment) (a : SweepAssignment) (rest : List (List SweepAssignment))
    → map (λ as_. (current ++ a ∷ []) ++ as_) rest
      ≡ map (λ as_. current ++ as_) (map (λ as_. a ∷ as_) rest)
map_push current a [] = refl
map_push current a (as_ ∷ rest) = cc (append_assoc current (a ∷ []) as_, map_push current a rest)

module _ (spec : SweepSpec) (specs : List SweepSpec) (current : List SweepAssignment) where
  for_each-choices :
      ((current' : List SweepAssignment) (out : List (List SweepAssignment))
        → append_assignments_recursive specs current' out
          ≡ out ++ map (λ as_. current' ++ as_) (choices specs))
      → (values : List SweepValue) (out : List (List SweepAssignment))
      → for_each
          (λ value out.
            append_assignments_recursive specs
              (current ++ record { spec = spec; value = value } ∷ [])
              out)
          values
          out
        ≡ out ++ map (λ as_. current ++ as_) (with_value spec (choices specs) values)
  unfolding for_each with_value
  for_each-choices ih [] out = sym (append-nil out)
  for_each-choices ih (value ∷ values) out =
      let a : SweepAssignment = record { spec = spec; value = value } in
      for_each-choices ih values _
      ∙ (ap (λ o. o ++ map (λ as_. current ++ as_) (with_value spec (choices specs) values))
            (ih (current ++ a ∷ []) out ∙ ap (λ l. out ++ l) (map_push current a (choices specs)))
          ∙ (append_assoc out _ _
              ∙ ap (λ l. out ++ l)
                  (sym (
                    map-append (λ as_. current ++ as_) (map (λ as_. a ∷ as_) (choices specs))
                      (with_value spec (choices specs) values)))))

append-choices :
    (specs : List SweepSpec) (current : List SweepAssignment) (out : List (List SweepAssignment))
    → append_assignments_recursive specs current out
      ≡ out ++ map (λ as_. current ++ as_) (choices specs)
unfolding append_assignments_recursive choices
append-choices [] current out = ap (λ l. out ++ l ∷ []) (sym (append-nil current))
append-choices (spec ∷ specs) current out =
    for_each-choices spec specs current (λ c o. append-choices specs c o) spec.values out

map_same : (rest : List (List SweepAssignment)) → map (λ as_. as_) rest ≡ rest
map_same [] = refl
map_same (as_ ∷ rest) = ap (◌∷◌ as_) (map_same rest)

build-choices : (c : BenchmarkConfig) → build_sweep_assignments c ≡ choices c.sweep_specs
unfolding build_sweep_assignments
build-choices c = append-choices c.sweep_specs [] [] ∙ map_same (choices c.sweep_specs)

length-with_value :
    (spec : SweepSpec) (rest : List (List SweepAssignment)) (values : List SweepValue)
    → length (with_value spec rest values) ≡ length values * length rest
unfolding with_value
length-with_value spec rest [] = omega arith
length-with_value spec rest (value ∷ values) =
    grind (arith, length-append, length-map, length-with_value spec rest values)

length-choices :
    (specs : List SweepSpec)
    → length (choices specs) ≡ product_map (λ (spec : SweepSpec). length spec.values) specs
unfolding choices
length-choices [] = refl
length-choices (spec ∷ specs) =
    length-with_value spec (choices specs) spec.values
    ∙ ap (λ n. length spec.values * n) (length-choices specs)

-- There are as many assignments as combinations of the values.
pub length-build_sweep_assignments :
    (c : BenchmarkConfig)
    → length (build_sweep_assignments c)
      ≡ product_map (λ (spec : SweepSpec). length spec.values) c.sweep_specs
length-build_sweep_assignments c = ap length (build-choices c) ∙ length-choices c.sweep_specs

Among-cons :
    (a : SweepAssignment) (as_ : List SweepAssignment) (rest : List (List SweepAssignment))
    → Among as_ rest
    → Among (a ∷ as_) (map (λ t. a ∷ t) rest)
Among-cons a as_ [] h = absurd h
Among-cons a as_ (t ∷ rest) (inl e) = inl (ap (◌∷◌ a) e)
Among-cons a as_ (t ∷ rest) (inr h) = inr (Among-cons a as_ rest h)

Among-map_cons :
    (a : SweepAssignment) (c : List SweepAssignment) (rest : List (List SweepAssignment))
    → Among c (map (λ t. a ∷ t) rest)
    → (t : List SweepAssignment) × (c ≡ a ∷ t) × Among t rest
Among-map_cons a c [] h = absurd h
Among-map_cons a c (t ∷ rest) (inl e) = (t, e, inl refl)
Among-map_cons a c (t ∷ rest) (inr h) = let (t', e, k) = Among-map_cons a c rest h in (t', e, inr k)

with_value-Among :
    (spec : SweepSpec) (rest : List (List SweepAssignment)) (values : List SweepValue)
    (value : SweepValue) (as_ : List SweepAssignment)
    → Among value values
    → Among as_ rest
    → Among
        (let a : SweepAssignment = record { spec = spec; value = value } in a ∷ as_)
        (with_value spec rest values)
unfolding with_value
with_value-Among spec rest [] value as_ h k = absurd h
with_value-Among spec rest (v ∷ values) value as_ (inl e) k =
    rw e (Among-append-left _ _ _ (Among-cons _ as_ rest k))
with_value-Among spec rest (v ∷ values) value as_ (inr h) k =
    Among-append-right _ _ _ (with_value-Among spec rest values value as_ h k)

Among-with_value :
    (spec : SweepSpec) (rest : List (List SweepAssignment)) (values : List SweepValue)
    (c : List SweepAssignment)
    → Among c (with_value spec rest values)
    → (value : SweepValue) × (t : List SweepAssignment) × (let a : SweepAssignment = record {
      spec = spec;
      value = value;
    } in
        c ≡ a ∷ t)
      × Among value values
      × Among t rest
unfolding with_value
Among-with_value spec rest [] c h = absurd h
Among-with_value spec rest (v ∷ values) c h = elim (Among-append c (map _ rest) _ h) [
  | inl here ↦
      let (t, e, k) = Among-map_cons (record { spec = spec; value = v }) c rest here in
      (v, t, e, inl refl, k)
  | inr there ↦
      let (value, t, e, m, k) = Among-with_value spec rest values c there in (value, t, e, inr m, k)
]

choice-Among :
    (specs : List SweepSpec) (as_ : List SweepAssignment)
    → IsChoice specs as_
    → Among as_ (choices specs)
unfolding choices
choice-Among [] [] h = inl refl
choice-Among [] (a ∷ as_) h = absurd h
choice-Among (spec ∷ specs) [] h = absurd h
choice-Among (spec ∷ specs) (a ∷ as_) (e, m, h) =
    subst
      (λ s.
        Among ((let b : SweepAssignment = record { spec = s; value = a.value } in b) ∷ as_)
          (with_value spec (choices specs) spec.values))
      (sym e)
      (with_value-Among spec (choices specs) spec.values a.value as_ m (choice-Among specs as_ h))

chosen_in_product :
    (specs : List SweepSpec) (as_ : List SweepAssignment)
    → Among as_ (choices specs)
    → IsChoice specs as_
unfolding choices
chosen_in_product [] as_ (inl e) = rw e tt
chosen_in_product [] as_ (inr h) = absurd h
chosen_in_product (spec ∷ specs) as_ h =
    let (value, t, e, m, k) = Among-with_value spec (choices specs) spec.values as_ h in
    rw e (refl, m, chosen_in_product specs t k)

-- An assignment is built just when it has one value of each spec, in the order of the specs.
pub build_sweep_assignments_iff :
    (c : BenchmarkConfig) (as_ : List SweepAssignment)
    → Among as_ (build_sweep_assignments c) ↔ IsChoice c.sweep_specs as_
build_sweep_assignments_iff c as_ =
    rw (build-choices c) (chosen_in_product c.sweep_specs as_, choice-Among c.sweep_specs as_)

-- With a maximum below the largest `size_t`, a validated sweep has one run or more, and no more
-- than its maximum.
pub length-validated_sweep :
    (m : Machine) (c c' : BenchmarkConfig)
    → c.run_sweep ≡ true
    → c.sweep_max_runs < size_max
    → validate_config m c ≡ ok c'
    → (1 ≤ length (build_sweep_assignments c))
      × (length (build_sweep_assignments c) ≤ c.sweep_max_runs)
length-validated_sweep m c c' sweep maximum e =
    let valid = validate_config-IsSweep m c c' sweep maximum e in
    let count = length-build_sweep_assignments c in
    (rw count valid.some_run, rw count valid.within_maximum)
