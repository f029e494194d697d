-- ===== src/AccurateRip/Offset/Landing.antt =====
-- Where the samples of a shifted track stand in the stream of a disc.
use phono_junk.Common.{
  ℕ, zero, suc, ◌+◌, ◌-◌, ◌*◌, ◌/◌, ◌%◌, ◌^◌, ◌≤◌, ◌<◌, ◌≡◌, refl, ap, ◌∙◌, some, List, [], ◌∷◌,
  ◌++◌, length, take, le→leb, lt→ltb, arith,
}
use phono_junk.Common.Int.{ℤ, pos, negsuc}
use phono_junk.Common.Words.{wrapping_add}
use phono_junk.AccurateRip.Crc.{TrackPosition, first, middle, last, only, skip_bounds}
use phono_junk.AccurateRip.Crc.Window.{sum_by, v2_term}
use phono_junk.AccurateRip.Offset.{sums_from, source_index, fold_v2}
use phono_junk.AccurateRip.Offset.Prefix.{range}

-- The shift of an index is another index.
abbrev pub Lands : ℤ → ℕ → ℕ → Type 0
Lands (pos n) start at = at ≡ start + n
Lands (negsuc n) start at = start ≡ at + (n + 1)

pub source_index-Lands :
    (shift : ℤ) (start at k disc_len : ℕ)
    → Lands shift start at
    → at + k ≤ disc_len
    → source_index (start + k) shift disc_len ≡ some (at + k)
unfolding source_index
source_index-Lands (pos n) start at k disc_len h le =
    let same : start + k + n ≡ at + k = omega arith in
    rw same (rw (le→leb (at + k) disc_len le) refl)
source_index-Lands (negsuc n) start at k disc_len h le =
    let same : start + k - (n + 1) ≡ at + k = omega arith in
    rw (lt→ltb n (start + k) (omega (arith, h))) (rw same (rw (le→leb (at + k) disc_len le) refl))

take-front : (c : ℕ) (xs ys : List ℕ) → c ≤ length xs → take c (xs ++ ys) ≡ take c xs
take-front zero xs ys h = refl
take-front (suc c) [] ys h = absurd (omega arith)
take-front (suc c) (x ∷ xs) ys h = ap (λ (l : List ℕ). x ∷ l) (take-front c xs ys (omega arith))

range-front : (k c : ℕ) (xs ys : List ℕ) → k + c ≤ length xs → range k c (xs ++ ys) ≡ range k c xs
range-front zero c xs ys h = take-front c xs ys (omega arith)
range-front (suc k) c [] ys h = absurd (omega arith)
range-front (suc k) c (x ∷ xs) ys h = range-front k c xs ys (omega arith)

-- A range within the middle of a stream.
pub range-inside :
    (before mid after : List ℕ) (k c : ℕ)
    → k + c ≤ length mid
    → range (length before + k) c (before ++ (mid ++ after)) ≡ range k c mid
range-inside [] xs after k c h =
    let same : 0 + k ≡ k = omega arith in rw same (range-front k c xs after h)
range-inside (x ∷ before) xs after k c h =
    let same : suc (length before) + k ≡ suc (length before + k) = omega arith in
    rw same (range-inside before xs after k c h)

pub length-sums_from : (s : ℕ) (xs : List ℕ) → length (sums_from s xs) ≡ suc (length xs)
unfolding sums_from
length-sums_from s [] = refl
length-sums_from s (x ∷ xs) = ap suc (length-sums_from (wrapping_add s x) xs)

pub end_pos : (position : TrackPosition) (total : ℕ) → (skip_bounds position total).1 ≤ total
end_pos first total = omega arith
end_pos middle total = omega arith
end_pos last total = omega arith
end_pos only total = omega arith

pub start_lt : (position : TrackPosition) (total : ℕ) → (skip_bounds position total).0 < 2 ^ 32
start_lt first total = omega arith
start_lt middle total = omega arith
start_lt last total = omega arith
start_lt only total = omega arith

-- The fold of version 2 is the sum of its terms.
pub fold_v2-eq :
    (m crc : ℕ) (xs : List ℕ) → fold_v2 m (crc % 2 ^ 32) xs ≡ (crc + sum_by v2_term m xs) % 2 ^ 32
unfolding fold_v2
fold_v2-eq m crc [] = omega arith
fold_v2-eq m crc (x ∷ xs) =
    let p = m * x in
    let step : ((crc % 2 ^ 32 + p % 2 ^ 32) % 2 ^ 32 + p / 2 ^ 32 % 2 ^ 32) % 2 ^ 32
        ≡ (crc + (p / 2 ^ 32 + p % 2 ^ 32)) % 2 ^ 32 =
      omega arith in
    rw step (fold_v2-eq (m + 1) (crc + (p / 2 ^ 32 + p % 2 ^ 32)) xs ∙ omega arith)
