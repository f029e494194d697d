-- ===== src/Toc/DiscId/DigitSum.antt =====
-- `digit_sum` of phono-junk-toc/src/discid.rs against decimal numerals.
use phono_junk.Common.{ℕ, zero, suc, ◌+◌, ◌*◌, ◌/◌, ◌%◌, ◌≤◌, ◌<◌, ◌≡◌, refl, ◌∙◌}
use phono_junk.Common.{List, [], ◌∷◌, All, arith, lt→ltb, inl, inr, ◌⊎◌}
use phono_junk.Toc.DiscId.{digit_sum, digit_sum_loop}

-- The number that digits stand for, the lowest first, and their sum.
abbrev pub value : List ℕ → ℕ
value [] = 0
value (d ∷ ds) = d + 10 * value ds

abbrev pub sum : List ℕ → ℕ
sum [] = 0
sum (d ∷ ds) = d + sum ds

zero_digits : (ds : List ℕ) → value ds ≡ 0 → sum ds ≡ 0
zero_digits [] h = refl
zero_digits (d ∷ ds) h = omega (arith, zero_digits ds (omega arith))

loop-zero : (fuel acc : ℕ) → digit_sum_loop fuel 0 acc ≡ acc
unfolding digit_sum_loop
loop-zero zero acc = refl
loop-zero (suc fuel) acc = refl

loop-step :
    (fuel n acc : ℕ)
    → 0 < n
    → digit_sum_loop (suc fuel) n acc ≡ digit_sum_loop fuel (n / 10) (acc + n % 10)
unfolding digit_sum_loop
loop-step fuel n acc h = rw (lt→ltb 0 n h)

zero_or_pos : (n : ℕ) → (n ≡ 0) ⊎ (0 < n)
zero_or_pos zero = inl refl
zero_or_pos (suc n) = inr (omega arith)

loop-value :
    (ds : List ℕ) (fuel n acc : ℕ)
    → All (λ d. d < 10) ds
    → n ≡ value ds
    → n ≤ fuel
    → digit_sum_loop fuel n acc ≡ acc + sum ds
loop-value [] fuel n acc h e enough = rw e (loop-zero fuel acc ∙ (omega arith))
loop-value (d ∷ ds) zero n acc h e enough =
    let none_left : n ≡ 0 = omega arith in
    rw none_left (loop-zero 0 acc ∙ omega (arith, zero_digits (d ∷ ds) (omega arith)))
loop-value (d ∷ ds) (suc fuel) n acc h e enough = elim (zero_or_pos n) [
  | inl empty ↦
      rw empty (loop-zero (suc fuel) acc ∙ omega (arith, zero_digits (d ∷ ds) (omega arith)))
  | inr pos ↦
      let small : d < 10 = h.0 in
      let low : n % 10 ≡ d = omega arith in
      loop-step fuel n acc pos
      ∙ loop-value ds fuel (n / 10) (acc + n % 10) h.1 (omega arith) (omega arith)
      ∙ (omega arith)
]

-- `digit_sum` of a number written in decimal is the sum of its digits, whatever their count and
-- with leading zeros too: the rounds of its loop are enough.
pub digit_sum-value : (ds : List ℕ) → All (λ d. d < 10) ds → digit_sum (value ds) ≡ sum ds
unfolding digit_sum
digit_sum-value ds h = omega (arith, loop-value ds (value ds) (value ds) 0 h refl (omega arith))

loop-le : (fuel n acc : ℕ) → digit_sum_loop fuel n acc ≤ acc + n
unfolding digit_sum_loop
loop-le zero n acc = omega arith
loop-le (suc fuel) n acc = ground (arith, loop-le fuel (n / 10) (acc + n % 10))

pub digit_sum-le : (n : ℕ) → digit_sum n ≤ n
unfolding digit_sum
digit_sum-le n = omega (arith, loop-le n n 0)
