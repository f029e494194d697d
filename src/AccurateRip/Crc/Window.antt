-- ===== src/AccurateRip/Crc/Window.antt =====
-- Sums over positions, and over the positions of a window.
use phono_junk.Common.{
  ℕ, zero, suc, ◌+◌, ◌-◌, ◌*◌, ◌/◌, ◌%◌, ◌^◌, ◌≤◌, ◌<◌, ◌≡◌, refl, ap, ◌∙◌, ◌&&◌, inl, inr,
}
use phono_junk.Common.{
  List, [], ◌∷◌, take, drop, arith, leb, le→leb, lt→leb_false, le_or_lt, if◌then◌else◌,
}

-- The sum of `term (m + k) x` over the elements `x` of a list, `k` their index.
abbrev pub sum_by : (ℕ → ℕ → ℕ) → ℕ → List ℕ → ℕ
sum_by term m [] = 0
sum_by term m (x ∷ xs) = term m x + sum_by term (m + 1) xs

-- What each sample adds to the two checksums: the product with its position, and the two halves
-- of that product.
abbrev pub v1_term : ℕ → ℕ → ℕ
v1_term position sample = position * sample

abbrev pub v2_term : ℕ → ℕ → ℕ
v2_term position sample = position * sample / 2 ^ 32 + position * sample % 2 ^ 32

-- The samples at the 1-based positions from `start` to `end`.
abbrev pub slice : ℕ × ℕ → List ℕ → List ℕ
slice (start, end) samples = take (end + 1 - start) (drop (start - 1) samples)

module _ (term : ℕ → ℕ → ℕ) (start end : ℕ) where
  -- The sum as the loops build it, with a test at each position.
  abbrev pub window_by : ℕ → List ℕ → ℕ
  window_by p [] = 0
  window_by p (x ∷ xs) = (if leb start p && leb p end then term p x else 0) + window_by (p + 1) xs

  window_by-past : (p : ℕ) (xs : List ℕ) → end < p → window_by p xs ≡ 0
  window_by-past p [] h = refl
  window_by-past p (x ∷ xs) h =
      ground (arith, lt→leb_false p end h, window_by-past (p + 1) xs (omega arith))

  window_by-inside :
      (n p : ℕ) (xs : List ℕ)
      → start ≤ p
      → n + p ≡ end + 1
      → window_by p xs ≡ sum_by term p (take n xs)
  window_by-inside zero p xs h e = window_by-past p xs (omega arith)
  window_by-inside (suc n) p [] h e = refl
  window_by-inside (suc n) p (x ∷ xs) h e = rw (le→leb start p h) (
      rw (le→leb p end (omega arith))
        (ap (λ (t : ℕ). term p x + t) (window_by-inside n (p + 1) xs (omega arith) (omega arith))))

  window_by-before :
      (d p : ℕ) (xs : List ℕ) → p + d ≡ start → window_by p xs ≡ window_by start (drop d xs)
  window_by-before zero p xs e =
      ap (λ (t : ℕ). window_by t xs) (let same : p ≡ start = omega arith in same)
  window_by-before (suc d) p [] e = refl
  window_by-before (suc d) p (x ∷ xs) e =
      rw (lt→leb_false start p (omega arith))
        (let rest = window_by-before d (p + 1) xs (omega arith) in omega (arith, rest))

  -- The tested sum is the plain sum over the slice, its first sample at position `start`.
  pub window_by-slice :
      (xs : List ℕ) → 1 ≤ start → window_by 1 xs ≡ sum_by term start (slice (start, end) xs)
  window_by-slice xs h = elim (le_or_lt start end) [
    | inl le ↦
        window_by-before (start - 1) 1 xs (omega arith)
        ∙ window_by-inside (end + 1 - start) start (drop (start - 1) xs) (omega arith) (omega arith)
    | inr lt ↦
        let empty : end + 1 - start ≡ 0 = omega arith in
        window_by-before (start - 1) 1 xs (omega arith)
        ∙ rw empty (window_by-past start (drop (start - 1) xs) lt)
  ]
