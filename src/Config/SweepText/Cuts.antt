-- ===== src/Config/SweepText/Cuts.antt =====
-- What a cut at the first occurrence of a byte gives, both ways.
use mac_os_memory_benchmark.Common.{
  ℕ, ◌≢◌, ◌==◌, ◌≡◌, refl, arith, [], ◌∷◌, ◌++◌, All, Bool-cases, inl, inr, ap, ==_iff,
}
use mac_os_memory_benchmark.Common.Bytes.{Bytes}
use mac_os_memory_benchmark.Config.SweepText.{Cut, whole, parts, prepend, cut}

-- The byte does not occur.
abbrev pub Lacks : ℕ → Bytes → Type 0
Lacks byte s = All (λ c. c ≢ byte) s

abbrev pub IsCut : ℕ → Bytes → Cut → Type 0
IsCut byte s (whole t) = (s ≡ t) × Lacks byte t
IsCut byte s (parts before after) = (s ≡ before ++ byte ∷ after) × Lacks byte before

prepend-IsCut :
    (byte c : ℕ) (s : Bytes) (found : Cut)
    → c ≢ byte
    → IsCut byte s found
    → IsCut byte (c ∷ s) (prepend c found)
unfolding prepend
prepend-IsCut byte c s (whole t) h k = (ap (◌∷◌ c) k.0, (h, k.1))
prepend-IsCut byte c s (parts before after) h k = (ap (◌∷◌ c) k.0, (h, k.1))

pub cut-IsCut : (byte : ℕ) (s : Bytes) → IsCut byte s (cut byte s)
unfolding cut
cut-IsCut byte [] = (refl, tt)
cut-IsCut byte (c ∷ s) = elim (Bool-cases (c == byte)) [
  | inl same ↦ rw same (ap (λ b. b ∷ s) ((==_iff c byte).0 same), tt)
  | inr other ↦
      rw other (prepend-IsCut byte c s (cut byte s) (ground (arith, other)) (cut-IsCut byte s))
]

pub cut-whole : (byte : ℕ) (s : Bytes) → Lacks byte s → cut byte s ≡ whole s
unfolding cut prepend
cut-whole byte [] h = refl
cut-whole byte (c ∷ s) h = ground (arith, cut-whole byte s h.1)

pub cut-parts :
    (byte : ℕ) (before after : Bytes)
    → Lacks byte before
    → cut byte (before ++ byte ∷ after) ≡ parts before after
unfolding cut prepend
cut-parts byte [] after h = ground arith
cut-parts byte (c ∷ before) after h = ground (arith, cut-parts byte before after h.1)
