-- ===== src/Config/SweepText/Printed.antt =====
-- Parsing a sweep's text is the inverse of printing it.
use mathlib.Core.Path.{subst}
use mac_os_memory_benchmark.Common.{
  ℕ, zero, suc, ◌+◌, ◌<◌, ◌≤◌, ◌≢◌, ◌≡◌, ◌↔◌, refl, arith, List, [], ◌∷◌, ◌++◌, All, length,
  Bool-cases, inl, inr, ap, false, ◌∙◌, sym, length-append, ◌||◌,
}
use mac_os_memory_benchmark.Common.Bytes.{Bytes}
use mac_os_memory_benchmark.Common.Results.{ok}
use mac_os_memory_benchmark.Config.SweepText.{
  Cut, whole, parts, cut, split_values, ParsedSweepText, any_empty, is_empty, checked_values,
  parse_sweep_text,
}
use mac_os_memory_benchmark.Config.SweepText.Cuts.{Lacks, IsCut, cut-IsCut, cut-whole, cut-parts}

-- The values with commas between them.
abbrev pub join : List Bytes → Bytes
join [] = []
join (value ∷ []) = value
join (value ∷ (next ∷ rest)) = value ++ b',' ∷ join (next ∷ rest)

abbrev pub print_sweep_text : ParsedSweepText → Bytes
print_sweep_text p = p.key ++ b'=' ∷ join p.values

-- What can be written as the text of a sweep: a key without an equals sign, and values without
-- commas, all of them not empty.
pub record IsSweepText (p : ParsedSweepText) : Type 0 where
  pub key_ne : p.key ≢ []
  pub key_lacks : Lacks b'=' p.key
  pub values_ne : p.values ≢ []
  pub each_ne : All (λ value. value ≢ []) p.values
  pub each_lacks : All (λ value. Lacks b',' value) p.values

join-cons :
    (value : Bytes) (values : List Bytes)
    → values ≢ []
    → join (value ∷ values) ≡ value ++ b',' ∷ join values
join-cons value [] h = absurd (h refl)
join-cons value (next ∷ rest) h = refl

-- The values that a text splits into.
record IsSplit (values : List Bytes) (text : Bytes) : Type 0 where
  joins : join values ≡ text
  ne : values ≢ []
  lacks : All (λ value. Lacks b',' value) values

cut_step :
    (fuel : ℕ) (text : Bytes) (found : Cut)
    → cut b',' text ≡ found
    → IsCut b',' text found
    → ((rest : Bytes) → length rest < length text → IsSplit (split_values fuel rest) rest)
    → IsSplit (split_values (suc fuel) text) text
unfolding split_values
cut_step fuel text (whole value) e is more =
    rw (e, split_values) (record { joins = sym is.0; ne = ground arith; lacks = (is.1, tt) })
cut_step fuel text (parts value rest) e is more =
    let shorter : length rest < length text =
      omega (arith, ap length is.0, length-append value (b',' ∷ rest)) in
    let tail = more rest shorter in
    rw (e, split_values)
      (record {
        joins = join-cons value _ tail.ne ∙ (ap (λ t. value ++ b',' ∷ t) tail.joins ∙ sym is.0);
        ne = ground arith;
        lacks = (is.1, tail.lacks);
      })

split_values-IsSplit :
    (fuel : ℕ) (text : Bytes) → length text < fuel → IsSplit (split_values fuel text) text
split_values-IsSplit zero text h = elim h [ ]
split_values-IsSplit (suc fuel) text h =
    cut_step fuel text (cut b',' text) refl (cut-IsCut b',' text)
      (λ rest k. split_values-IsSplit fuel rest (omega arith))

split_values-join :
    (fuel : ℕ) (values : List Bytes)
    → values ≢ []
    → All (λ value. Lacks b',' value) values
    → length values ≤ fuel
    → split_values fuel (join values) ≡ values
unfolding split_values
split_values-join fuel [] h lacks enough = absurd (h refl)
split_values-join zero (value ∷ values) h lacks enough = absurd (omega arith)
split_values-join (suc fuel) (value ∷ []) h lacks enough =
    rw (cut-whole b',' value lacks.0, split_values)
split_values-join (suc fuel) (value ∷ (next ∷ rest)) h lacks enough =
    rw (cut-parts b',' value (join (next ∷ rest)) lacks.0, split_values)
      (ap (◌∷◌ value) (split_values-join fuel (next ∷ rest) (ground arith) lacks.1 (omega arith)))

length-join : (values : List Bytes) → length values ≤ length (join values) + 1
length-join [] = omega arith
length-join (value ∷ []) = omega arith
length-join (value ∷ (next ∷ rest)) =
    omega (arith, length-append value (b',' ∷ join (next ∷ rest)), length-join (next ∷ rest))

is_empty-ne : (s : Bytes) → is_empty s ≡ false → s ≢ []
is_empty-ne [] h = cc
is_empty-ne (c ∷ s) h = ground arith

ne-is_empty : (s : Bytes) → s ≢ [] → is_empty s ≡ false
ne-is_empty [] h = absurd (h refl)
ne-is_empty (c ∷ s) h = refl

any_empty-ne : (values : List Bytes) → any_empty values ≡ false → All (λ value. value ≢ []) values
unfolding any_empty
any_empty-ne [] h = tt
any_empty-ne ([] ∷ values) h = cc
any_empty-ne ((c ∷ s) ∷ values) h = (is_empty-ne (c ∷ s) refl, any_empty-ne values h)

ne-any_empty : (values : List Bytes) → All (λ value. value ≢ []) values → any_empty values ≡ false
unfolding any_empty
ne-any_empty [] h = refl
ne-any_empty ([] ∷ values) h = absurd (h.0 refl)
ne-any_empty ((c ∷ s) ∷ values) h = ne-any_empty values h.1

checked_values-ok :
    (key : Bytes) (values : List Bytes) (p : ParsedSweepText)
    → checked_values key values ≡ ok p
    → (any_empty values ≡ false) × (record { key = key; values = values } ≡ p)
unfolding checked_values
checked_values-ok key values p h = ground arith

join-ne : (values : List Bytes) → values ≢ [] → All (λ value. value ≢ []) values → join values ≢ []
join-ne [] h each = absurd (h refl)
join-ne (value ∷ []) h each = each.0
join-ne ([] ∷ (next ∷ rest)) h each = absurd (each.0 refl)
join-ne ((c ∷ s) ∷ (next ∷ rest)) h each = ground arith

abbrev Accepts : Bytes → ParsedSweepText → Type 0
Accepts specification p = IsSweepText p × (specification ≡ print_sweep_text p)

accepted_parts :
    (specification key value_text : Bytes) (p : ParsedSweepText)
    → IsCut b'=' specification (parts key value_text)
    → (is_empty key || is_empty value_text) ≡ false
    → checked_values key (split_values (length value_text + 1) value_text) ≡ ok p
    → Accepts specification p
accepted_parts specification key value_text p is filled e =
    let (each, same) = checked_values-ok key _ p e in
    let split = split_values-IsSplit (length value_text + 1) value_text (omega arith) in
    subst (Accepts specification) same (
      record {
        key_ne = is_empty-ne key (ground (arith, filled));
        key_lacks = is.1;
        values_ne = split.ne;
        each_ne = any_empty-ne _ each;
        each_lacks = split.lacks;
      },
      is.0 ∙ ap (λ t. key ++ b'=' ∷ t) (sym split.joins),
    )

accepted_text :
    (specification : Bytes) (p : ParsedSweepText) (found : Cut)
    → cut b'=' specification ≡ found
    → IsCut b'=' specification found
    → parse_sweep_text specification ≡ ok p
    → Accepts specification p
unfolding parse_sweep_text
accepted_text specification p (whole t) e is h =
    absurd (ground (arith, rw (e, parse_sweep_text) at h))
accepted_text specification p (parts key value_text) e is h =
    let opened = rw (e, parse_sweep_text) at h in
    elim (Bool-cases (is_empty key || is_empty value_text)) [
      | inl bad ↦ absurd (ground (arith, rw bad at opened))
      | inr good ↦ accepted_parts specification key value_text p is good (rw good at opened)
    ]

accepts-parse : (p : ParsedSweepText) → IsSweepText p → parse_sweep_text (print_sweep_text p) ≡ ok p
unfolding parse_sweep_text checked_values
accepts-parse p is =
    let cut_here = cut-parts b'=' p.key (join p.values) is.key_lacks in
    let split =
      split_values-join (length (join p.values) + 1) p.values is.values_ne is.each_lacks
        (length-join p.values) in
    rw (cut_here, parse_sweep_text)
      (rw
        (
          ne-is_empty p.key is.key_ne,
          ne-is_empty (join p.values) (join-ne p.values is.values_ne is.each_ne),
        )
        (rw split (rw (ne-any_empty p.values is.each_ne) refl)))

-- Parsing inverts printing: a text parses as a key and values just when these can be written as a
-- sweep (a key that is not empty and has no equals sign; one value or more, none of them empty or
-- with a comma) and the text is that writing.
pub parse_sweep_text_iff :
    (specification : Bytes) (p : ParsedSweepText)
    → (parse_sweep_text specification ≡ ok p)
      ↔ (IsSweepText p × (specification ≡ print_sweep_text p))
parse_sweep_text_iff specification p = (
  accepted_text specification p (cut b'=' specification) refl (cut-IsCut b'=' specification),
  λ a. ap parse_sweep_text a.1 ∙ accepts-parse p a.0,
)
