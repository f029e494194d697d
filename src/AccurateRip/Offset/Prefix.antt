-- ===== src/AccurateRip/Offset/Prefix.antt =====
-- Prefix sums give the weighted sum of any range.
use phono_junk.Common.{
  ℕ, zero, suc, ◌+◌, ◌-◌, ◌*◌, ◌/◌, ◌%◌, ◌^◌, ◌≤◌, ◌<◌, ◌≡◌, refl, ap, ◌∙◌, some,
}
use phono_junk.Common.{List, [], ◌∷◌, length, take, drop, get_elem?, arith, le_or_lt, inl, inr}
use phono_junk.Common.Outcome.{ok}
use phono_junk.AccurateRip.Crc.Window.{sum_by, v1_term}
use phono_junk.AccurateRip.Offset.{sums_from, weighted_from, prefix_sums, weighted_range}

abbrev plain_sum : List ℕ → ℕ
plain_sum [] = 0
plain_sum (x ∷ xs) = x + plain_sum xs

-- Sums with two first multipliers differ by their difference times the plain sum.
sum_by-first :
    (m j : ℕ) (xs : List ℕ)
    → sum_by v1_term m xs + j * plain_sum xs ≡ sum_by v1_term j xs + m * plain_sum xs
sum_by-first m j [] = omega arith
sum_by-first m j (x ∷ xs) = omega (arith, sum_by-first (m + 1) (j + 1) xs)

mul_split : (a b q r : ℕ) → b ≡ 2 ^ 32 * q + r → a * r % 2 ^ 32 ≡ a * b % 2 ^ 32
mul_split a b q r e = omega (arith, ap (λ (t : ℕ). a * t) e)

mul_mod : (a b : ℕ) → a * (b % 2 ^ 32) % 2 ^ 32 ≡ a * b % 2 ^ 32
mul_mod a b = mul_split a b (b / 2 ^ 32) (b % 2 ^ 32) (omega arith)

sums_from-at :
    (s : ℕ) (xs : List ℕ) (k : ℕ)
    → s < 2 ^ 32
    → k ≤ length xs
    → get_elem? (sums_from s xs) k ≡ some ((s + plain_sum (take k xs)) % 2 ^ 32)
unfolding sums_from
sums_from-at s [] zero h le = ap some (omega arith)
sums_from-at s [] (suc k) h le = absurd (omega arith)
sums_from-at s (x ∷ xs) zero h le = ap some (omega arith)
sums_from-at s (x ∷ xs) (suc k) h le =
    sums_from-at ((s + x) % 2 ^ 32) xs k (omega arith) (omega arith) ∙ ap some (omega arith)

weighted_from-at :
    (i w : ℕ) (xs : List ℕ) (k : ℕ)
    → w < 2 ^ 32
    → i + length xs ≤ 2 ^ 32
    → k ≤ length xs
    → get_elem? (weighted_from i w xs) k ≡ some ((w + sum_by v1_term i (take k xs)) % 2 ^ 32)
unfolding weighted_from
weighted_from-at i w [] zero h fits le = ap some (omega arith)
weighted_from-at i w [] (suc k) h fits le = absurd (omega arith)
weighted_from-at i w (x ∷ xs) zero h fits le = ap some (omega arith)
weighted_from-at i w (x ∷ xs) (suc k) h fits le =
    let small : i % 2 ^ 32 ≡ i = omega arith in
    rw small (
      weighted_from-at (i + 1) ((w + i * x % 2 ^ 32) % 2 ^ 32) xs k (omega arith) (omega arith)
        (omega arith)
      ∙ ap some (omega arith))

-- The sums up to an end, from those up to a start and those of the range.
abbrev pub range : ℕ → ℕ → List ℕ → List ℕ
range start count xs = take count (drop start xs)

take-nil : (n : ℕ) → take {A = ℕ} n [] ≡ []
take-nil zero = refl
take-nil (suc n) = refl

plain_sum-range :
    (start count : ℕ) (xs : List ℕ)
    → plain_sum (take (start + count) xs)
      ≡ plain_sum (take start xs) + plain_sum (range start count xs)
plain_sum-range zero count xs = let z : 0 + count ≡ count = omega arith in rw z (omega arith)
plain_sum-range (suc start) count [] = rw (take-nil (suc start + count)) (rw (take-nil count) refl)
plain_sum-range (suc start) count (x ∷ xs) =
    let z : suc start + count ≡ suc (start + count) = omega arith in
    rw z (omega (arith, plain_sum-range start count xs))

sum_by-range :
    (i start count : ℕ) (xs : List ℕ)
    → sum_by v1_term i (take (start + count) xs)
      ≡ sum_by v1_term i (take start xs) + sum_by v1_term (i + start) (range start count xs)
sum_by-range i zero count xs =
    let z : 0 + count ≡ count = omega arith in
    let y : i + 0 ≡ i = omega arith in rw z (rw y (omega arith))
sum_by-range i (suc start) count [] = rw (take-nil (suc start + count)) (rw (take-nil count) refl)
sum_by-range i (suc start) count (x ∷ xs) =
    let z : suc start + count ≡ suc (start + count) = omega arith in
    let y : i + suc start ≡ i + 1 + start = omega arith in
    rw z (rw y (omega (arith, sum_by-range (i + 1) start count xs)))

weighted_split :
    (start count : ℕ) (xs : List ℕ)
    → sum_by v1_term 0 (take (start + count) xs)
      ≡ sum_by v1_term 0 (take start xs) + sum_by v1_term start (range start count xs)
weighted_split start count xs =
    let z : 0 + start ≡ start = omega arith in
    sum_by-range 0 start count xs
    ∙ ap (λ (t : ℕ). sum_by v1_term 0 (take start xs) + sum_by v1_term t (range start count xs)) z

-- The wrapped difference of the sums, adjusted, is the weighted sum of the range.
adjusted :
    (s0 s1 s w0 w1 w m start p : ℕ)
    → s1 ≡ s0 + s
    → w1 ≡ w0 + w
    → p + start * s ≡ w + m * s
    → m < 2 ^ 32
    → start < 2 ^ 32
    → ((w1 % 2 ^ 32 + 2 ^ 32 - w0 % 2 ^ 32) % 2 ^ 32
          + (m + 2 ^ 32 - start)
            % 2 ^ 32
            * ((s1 % 2 ^ 32 + 2 ^ 32 - s0 % 2 ^ 32) % 2 ^ 32)
            % 2 ^ 32)
        % 2 ^ 32
      ≡ p % 2 ^ 32
adjusted s0 s1 s w0 w1 w m start p es ew e hm hs =
    let sum : (s1 % 2 ^ 32 + 2 ^ 32 - s0 % 2 ^ 32) % 2 ^ 32 ≡ s % 2 ^ 32 = omega arith in
    let a = (m + 2 ^ 32 - start) % 2 ^ 32 in
    let product : a * (s % 2 ^ 32) % 2 ^ 32 ≡ a * s % 2 ^ 32 = mul_mod a s in
    rw sum (
      rw product (elim (le_or_lt start m) [
        | inl le ↦
            let h : a + start ≡ m = omega arith in omega (arith, ap (λ (t : ℕ). t * s) h, ew, e)
        | inr lt ↦
            let h : a + start ≡ m + 2 ^ 32 = omega arith in
            omega (arith, ap (λ (t : ℕ). t * s) h, ew, e)
      ]))

-- For a stream below 2 ^ 32 samples, `weighted_range` on its prefix sums does not panic on a range
-- within it, and gives the sum, modulo 2 ^ 32, of each sample of the range times its multiplier:
-- `first_multiplier` for the first sample, and one more for each sample after it.
pub weighted_range-eq :
    {E : Type 0} (disc : List ℕ) (start count first_multiplier : ℕ)
    → length disc < 2 ^ 32
    → start + count ≤ length disc
    → first_multiplier < 2 ^ 32
    → weighted_range {E = E} (prefix_sums disc) start (start + count) first_multiplier
      ≡ ok (sum_by v1_term first_multiplier (range start count disc) % 2 ^ 32)
unfolding weighted_range prefix_sums
weighted_range-eq disc start count first_multiplier fits inside small =
    let cast : start % 2 ^ 32 ≡ start = omega arith in
    rw (sums_from-at 0 disc (start + count) (omega arith) inside) (
      rw (sums_from-at 0 disc start (omega arith) (omega arith)) (
        rw (weighted_from-at 0 0 disc (start + count) (omega arith) (omega arith) inside) (
          rw (weighted_from-at 0 0 disc start (omega arith) (omega arith) (omega arith)) (
            rw cast (
              ap ok (
                adjusted (0 + plain_sum (take start disc))
                  (0 + plain_sum (take (start + count) disc)) (plain_sum (range start count disc))
                  (0 + sum_by v1_term 0 (take start disc))
                  (0 + sum_by v1_term 0 (take (start + count) disc))
                  (sum_by v1_term start (range start count disc)) first_multiplier start
                  (sum_by v1_term first_multiplier (range start count disc))
                  (omega (arith, plain_sum-range start count disc))
                  (omega (arith, weighted_split start count disc))
                  (sum_by-first first_multiplier start (range start count disc)) small
                  (omega arith)))))))
