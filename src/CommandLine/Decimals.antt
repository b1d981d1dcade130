-- ===== src/CommandLine/Decimals.antt =====
-- The strict integers accept whole decimals in range, and read back what is printed.
use mac_os_memory_benchmark.Common.{
  ℕ, zero, suc, ◌+◌, ◌-◌, ◌*◌, ◌/◌, ◌%◌, ◌≤◌, ◌<◌, ◌≡◌, ◌≢◌, ◌↔◌, refl, ap, ◌∙◌, arith, true, false,
  [], ◌∷◌, ◌++◌, All, Option, none, some, ltb, ◌==◌, if◌then◌else◌, inl, inr, Bool-cases,
}
use mac_os_memory_benchmark.Common.Bytes.{Bytes}
use mac_os_memory_benchmark.Common.Int.{ℤ, pos, negsuc}
use mac_os_memory_benchmark.CommandLine.{
  success, is_digit, scan_digits, scan_number, scanned, long_long_max, uint64_max, negated,
  parse_strict_signed_decimal, parse_strict_unsigned_decimal,
}

-- The number that digits write, after a number.
value_from : ℕ → Bytes → ℕ
value_from number [] = number
value_from number (c ∷ text) = value_from (number * 10 + (c - b'0')) text

pub decimal_value : Bytes → ℕ
decimal_value [] = 0
decimal_value (c ∷ text) = value_from (c - b'0') text

abbrev pub AreDigits : Bytes → Type 0
AreDigits = All (λ c. is_digit c ≡ true)

scan_digits-all :
    (number : ℕ) (text : Bytes)
    → AreDigits text
    → scan_digits number text ≡ (value_from number text, [])
unfolding scan_digits value_from
scan_digits-all number [] h = refl
scan_digits-all number (c ∷ text) h = rw h.0 (scan_digits-all (number * 10 + (c - b'0')) text h.1)

scan_digits-whole :
    (number n : ℕ) (text : Bytes)
    → scan_digits number text ≡ (n, [])
    → AreDigits text × (value_from number text ≡ n)
unfolding scan_digits value_from
scan_digits-whole number n [] e = (tt, ap (λ p. p.0) e)
scan_digits-whole number n (c ∷ text) e = elim (Bool-cases (is_digit c)) [
  | inl digit ↦
      let (all, value) = scan_digits-whole (number * 10 + (c - b'0')) n text (rw digit at e) in
      ((digit, all), value)
  | inr other ↦ absurd (ground (arith, rw other at e))
]

-- A whole decimal: digits, one at least.
abbrev pub IsDecimal : Bytes → Type 0
IsDecimal text = (text ≢ []) × AreDigits text

scan_number_iff :
    (text : Bytes) (n : ℕ)
    → (scan_number text ≡ some (n, [])) ↔ (IsDecimal text × (decimal_value text ≡ n))
unfolding scan_number decimal_value
scan_number_iff [] n = (λ e. cc, λ k. absurd (k.0.0 refl))
scan_number_iff (c ∷ text) n = (
  λ e. elim (Bool-cases (is_digit c)) [
    | inl digit ↦
        let whole : scan_digits (c - b'0') text ≡ (n, []) = ground (arith, rw digit at e) in
        let (all, value) = scan_digits-whole (c - b'0') n text whole in
        ((ground arith, (digit, all)), value)
    | inr other ↦ absurd (ground (arith, rw other at e))
  ],
  λ k. rw k.0.1.0 (rw (scan_digits-all (c - b'0') text k.0.1.1) (ap (λ v. some (v, [])) k.1)),
)

scanned-whole :
    {A : Type 0} (maximum : ℕ) (value : ℕ → A) (found : Option (ℕ × Bytes)) (a : A)
    → scanned maximum value found ≡ success a
    → (n : ℕ) × (found ≡ some (n, [])) × (n ≤ maximum) × (value n ≡ a)
unfolding scanned
scanned-whole maximum value none a e = cc
scanned-whole maximum value (some (n, [])) a e = (n, refl, ground arith, ground arith)
scanned-whole maximum value (some (n, c ∷ rest)) a e = absurd (ground arith)

whole-scanned :
    {A : Type 0} (maximum : ℕ) (value : ℕ → A) (found : Option (ℕ × Bytes)) (n : ℕ)
    → found ≡ some (n, [])
    → n ≤ maximum
    → scanned maximum value found ≡ success (value n)
unfolding scanned
whole-scanned maximum value found n e h = rw e (ground arith)

-- A text parses as an unsigned number just when it is digits only, one at least, and the number that
-- they write, which is at most the largest `uint64_t`.
pub parse_strict_unsigned_decimal_iff :
    (text : Bytes) (n : ℕ)
    → (parse_strict_unsigned_decimal text ≡ success n)
      ↔ (IsDecimal text × (decimal_value text ≡ n) × (n ≤ uint64_max))
unfolding parse_strict_unsigned_decimal
parse_strict_unsigned_decimal_iff text n = (
  λ e.
      let (k, found, le, same) = scanned-whole uint64_max (λ v. v) (scan_number text) n e in
      let (decimal, value) = (scan_number_iff text k).0 found in
      (decimal, value ∙ same, omega arith),
  λ (decimal, value, le).
      whole-scanned uint64_max (λ v. v) (scan_number text) n
        ((scan_number_iff text n).1 (decimal, value)) le,
)

-- Printing in base 10.
pub digits : ℕ → ℕ → Bytes
digits zero n = []
digits (suc fuel) n =
    let front = digits fuel (n / 10) in
    if ltb n 10 then (b'0' + n) ∷ [] else front ++ (b'0' + n % 10) ∷ []

pub print_unsigned : ℕ → Bytes
print_unsigned n = digits (suc n) n

pub print_signed : ℤ → Bytes
print_signed (pos n) = print_unsigned n
print_signed (negsuc n) = b'-' ∷ print_unsigned (suc n)

value_from-append :
    (number : ℕ) (text : Bytes) (c : ℕ)
    → value_from number (text ++ c ∷ []) ≡ value_from number text * 10 + (c - b'0')
unfolding value_from
value_from-append number [] c = refl
value_from-append number (d ∷ text) c = value_from-append (number * 10 + (d - b'0')) text c

value_of_append :
    (text : Bytes) (c : ℕ)
    → IsDecimal text
    → is_digit c ≡ true
    → IsDecimal (text ++ c ∷ [])
      × (decimal_value (text ++ c ∷ []) ≡ decimal_value text * 10 + (c - b'0'))
unfolding decimal_value
value_of_append [] c h d = absurd (h.0 refl)
value_of_append (b ∷ text) c h d =
    ((ground arith, (h.1.0, AreDigits-append text h.1.1)), value_from-append (b - b'0') text c)
  where
    AreDigits-append : (t : Bytes) → AreDigits t → AreDigits (t ++ c ∷ [])
    AreDigits-append [] k = (d, tt)
    AreDigits-append (a ∷ t) k = (k.0, AreDigits-append t k.1)

digit-is_digit : (n : ℕ) → n < 10 → is_digit (b'0' + n) ≡ true
digit-is_digit n h = ground arith

digits-IsDecimal :
    (fuel n : ℕ) → n < fuel → IsDecimal (digits fuel n) × (decimal_value (digits fuel n) ≡ n)
unfolding digits decimal_value value_from
digits-IsDecimal zero n h = elim h [ ]
digits-IsDecimal (suc fuel) n h = elim (Bool-cases (ltb n 10)) [
  | inl small ↦ rw small (one_digit n (ground (arith, small)))
  | inr large ↦
      let (decimal, value) = digits-IsDecimal fuel (n / 10) (ground (arith, large)) in
      let (longer, total) =
        value_of_append (digits fuel (n / 10)) (b'0' + n % 10) decimal
          (digit-is_digit (n % 10) (omega arith)) in
      rw large (longer, omega (arith, total, value))
]
  where
    one_digit :
        (k : ℕ) → k < 10 → IsDecimal ((b'0' + k) ∷ []) × (decimal_value ((b'0' + k) ∷ []) ≡ k)
    one_digit k lt = ((ground arith, (digit-is_digit k lt, tt)), omega arith)

-- The range of `long long`.
abbrev pub IsLongLong : ℤ → Type 0
IsLongLong (pos n) = n ≤ long_long_max
IsLongLong (negsuc n) = n ≤ long_long_max

first_digit :
    (text : Bytes) (n : ℕ)
    → IsDecimal text
    → decimal_value text ≡ n
    → n ≤ long_long_max
    → parse_strict_signed_decimal text ≡ success (pos n)
unfolding parse_strict_signed_decimal
first_digit [] n d v h = absurd (d.0 refl)
first_digit (c ∷ text) n d v h =
    let no_sign : (c == b'-') ≡ false = ground (arith, d.1.0) in
    rw no_sign (
      whole-scanned long_long_max pos (scan_number (c ∷ text)) n
        ((scan_number_iff (c ∷ text) n).1 (d, v)) h)

-- Every `long long` is read back from its decimal text, with a minus sign if it is negative.
pub parse_strict_signed_decimal-print :
    (z : ℤ) → IsLongLong z → parse_strict_signed_decimal (print_signed z) ≡ success z
unfolding print_signed print_unsigned parse_strict_signed_decimal
parse_strict_signed_decimal-print (pos n) h =
    let (decimal, value) = digits-IsDecimal (suc n) n (omega arith) in
    first_digit (digits (suc n) n) n decimal value h
parse_strict_signed_decimal-print (negsuc n) h =
    let (decimal, value) = digits-IsDecimal (suc (suc n)) (suc n) (omega arith) in
    whole-scanned (long_long_max + 1) negated (scan_number (digits (suc (suc n)) (suc n))) (suc n)
      ((scan_number_iff _ (suc n)).1 (decimal, value)) (omega arith)
