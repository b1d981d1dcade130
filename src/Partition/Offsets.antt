-- ===== src/Partition/Offsets.antt =====
-- The chunk ends in closed form, and the rounding of a boundary.
use mathlib.Core.Path.{subst₂}
use mac_os_memory_benchmark.Common.{
  sym, ap, ◌∙◌, ℕ, zero, suc, ◌+◌, ◌*◌, ◌/◌, ◌%◌, ◌≤◌, ◌<◌, ◌≡◌, refl, List, [], ◌∷◌, arith, min,
  size_max, map, iota, ltb, if◌then◌else◌, add_size, ◌⊎◌,
}
use native.Mathlib.Nat.{div-add-mod, mod-lt}
use mac_os_memory_benchmark.Partition.{cache_line, chunk_ends, align_boundary}

-- Where worker `w` starts in an even split.
abbrev pub even_offset : ℕ → ℕ → ℕ → ℕ
even_offset base remainder w = w * base + min w remainder

even_offset_step :
    (base remainder w : ℕ)
    → even_offset base remainder (w + 1) ≤ size_max
    → add_size (even_offset base remainder w) (add_size base (if ltb w remainder then 1 else 0))
      ≡ even_offset base remainder (w + 1)
even_offset_step base remainder w h = ground arith

even_offset_mono :
    (base remainder v w : ℕ) → v ≤ w → even_offset base remainder v ≤ even_offset base remainder w
even_offset_mono base remainder v w h = grind arith

-- Below the size limit no addition of the first loop wraps.
pub chunk_ends-even :
    (base remainder left w : ℕ)
    → even_offset base remainder (w + left) ≤ size_max
    → chunk_ends base remainder left w (even_offset base remainder w)
      ≡ map (even_offset base remainder) (iota (w + 1) left)
unfolding chunk_ends
chunk_ends-even base remainder zero w h = refl
chunk_ends-even base remainder (suc left) w h =
    let e : w + suc left ≡ w + 1 + left = omega arith in
    let below : even_offset base remainder (w + 1 + left) ≤ size_max = rw e at h in
    let mono = even_offset_mono base remainder (w + 1) (w + 1 + left) (omega arith) in
    rw (
      even_offset_step base remainder w (omega arith),
      chunk_ends-even base remainder left (w + 1) below,
    )

-- The list rises from `low` to `size` in steps of at least `gap`.
abbrev pub Ascends : ℕ → ℕ → ℕ → List ℕ → Type 0
Ascends gap size low [] = low ≡ size
Ascends gap size low (b ∷ bs) = (low + gap ≤ b) × Ascends gap size b bs

pub Ascends-bound : (gap size low : ℕ) (bs : List ℕ) → Ascends gap size low bs → low ≤ size
Ascends-bound gap size low [] h = omega arith
Ascends-bound gap size low (b ∷ bs) h = omega (arith, Ascends-bound gap size b bs h.1)

even-Ascends :
    (base remainder size left w : ℕ)
    → even_offset base remainder (w + left) ≡ size
    → Ascends base size
        (even_offset base remainder w)
        (map (even_offset base remainder) (iota (w + 1) left))
even-Ascends base remainder size zero w h = let e : w + 0 ≡ w = omega arith in rw e at h
even-Ascends base remainder size (suc left) w h =
    let e : w + suc left ≡ w + 1 + left = omega arith in
    (grind arith, even-Ascends base remainder size left (w + 1) (rw e at h))

-- The first loop splits the buffer into chunks of at least size / workers bytes each.
pub chunk_ends-Ascends :
    (size workers : ℕ)
    → 1 ≤ workers
    → size ≤ size_max
    → Ascends (size / workers) size 0 (chunk_ends (size / workers) (size % workers) workers 0 0)
chunk_ends-Ascends size workers h k =
    let whole : even_offset (size / workers) (size % workers) (0 + workers) ≡ size =
      ground (arith, div-add-mod size workers, mod-lt size {m = workers}) in
    let start : even_offset (size / workers) (size % workers) 0 ≡ 0 = omega arith in
    let ends = chunk_ends-even (size / workers) (size % workers) workers 0 (omega arith) in
    let rises = even-Ascends (size / workers) (size % workers) size workers 0 whole in
    subst₂ (λ low bs. Ascends (size / workers) size low bs) start
      (sym (ap (chunk_ends (size / workers) (size % workers) workers 0) (sym start) ∙ ends)) rises

pub align_boundary_lem :
    (size b : ℕ)
    → size ≤ size_max
    → b ≤ size
    → (b ≤ align_boundary size b)
      × (align_boundary size b ≤ size)
      × (align_boundary size b < b + cache_line)
      × ((align_boundary size b % cache_line ≡ 0) ⊎ (align_boundary size b ≡ size))
unfolding align_boundary
align_boundary_lem size b h k = ground arith
