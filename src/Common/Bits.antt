-- ===== src/Common/Bits.antt =====
-- `|` of disjoint bit fields, as a sum.
use Prim.Native.Nat.{
  ℕ, zero, suc, ◌+◌, ◌-◌, ◌*◌, ◌/◌, ◌%◌, ◌^◌, ◌≤◌, ◌<◌, max, bit_or, bit_and, digits,
  bit_or-bitwise,
}
use mathlib.Core.Path.{◌≡◌, refl, ap, ◌∙◌}
use native.Mathlib.Nat.{pow-suc}
use native.Mathlib.Omega.{arith}
use mathlib.Core.Bool.{Bool, true, ◌&&◌}
use phono_junk.Common.Tests.{◌==◌, ==_iff}

-- `bit_or` means this recursion on binary digits, with fuel.
abbrev or_digits : ℕ → ℕ → ℕ → ℕ
or_digits fuel a b = digits (λ y. y) max fuel a b

-- Fuel beyond the value is not used.
or_digits-more : (fuel a b : ℕ) → a ≤ fuel → or_digits (suc fuel) a b ≡ or_digits fuel a b
or_digits-more zero zero b h = refl
or_digits-more zero (suc a) b h = elim h [ ]
or_digits-more (suc fuel) zero b h = refl
or_digits-more (suc fuel) (suc a) b h = rw (or_digits-more fuel (suc a / 2) (b / 2) (omega arith))

or_digits-slack : (k a b : ℕ) → or_digits (a + k) a b ≡ or_digits a a b
or_digits-slack zero a b = let e : a + 0 ≡ a = omega arith in rw e
or_digits-slack (suc k) a b =
    let e : a + suc k ≡ suc (a + k) = omega arith in
    rw e (or_digits-more (a + k) a b (omega arith) ∙ or_digits-slack k a b)

or_low_digit : (a b : ℕ) → bit_or a b ≡ bit_or (a / 2) (b / 2) * 2 + max (a % 2) (b % 2)
or_low_digit zero b = omega (arith, bit_or-bitwise 0 b, bit_or-bitwise 0 (b / 2))
or_low_digit (suc a) b =
    let half : a ≡ suc a / 2 + (a - suc a / 2) = omega arith in
    omega (
      arith,
      bit_or-bitwise (suc a) b,
      bit_or-bitwise (suc a / 2) (b / 2),
      ap (λ (fuel : ℕ). or_digits fuel (suc a / 2) (b / 2)) half,
      or_digits-slack (a - suc a / 2) (suc a / 2) (b / 2),
    )

or_nothing : (bound a : ℕ) → a ≤ bound → bit_or a 0 ≡ a
or_nothing bound zero h = refl
or_nothing zero (suc a) h = elim h [ ]
or_nothing (suc bound) (suc a) h =
    omega (arith, or_low_digit (suc a) 0, or_nothing bound (suc a / 2) (omega arith))

-- A field above bit `k` joined with one below it is their sum.
pub bit_or-shifted : (k q r : ℕ) → r < 2 ^ k → bit_or (q * 2 ^ k) r ≡ q * 2 ^ k + r
bit_or-shifted zero q r h =
    let e : r ≡ 0 = omega arith in
    let f : q * 2 ^ 0 ≡ q = omega arith in
    rw e (rw f (or_nothing q q (omega arith) ∙ (omega arith)))
bit_or-shifted (suc k) q r h =
    let double : q * 2 ^ suc k ≡ 2 * (q * 2 ^ k) =
      omega (arith, ap (λ (t : ℕ). q * t) (pow-suc 2 k)) in
    let low : r / 2 < 2 ^ k = omega (arith, pow-suc 2 k) in
    let high : q * 2 ^ suc k / 2 ≡ q * 2 ^ k = omega (arith, double) in
    omega (
      arith,
      double,
      or_low_digit (q * 2 ^ suc k) r,
      ap (λ (t : ℕ). bit_or t (r / 2)) high,
      bit_or-shifted k q (r / 2) low,
    )

all_below : ℕ → (ℕ → Bool) → Bool
all_below zero p = true
all_below (suc n) p = p n && all_below n p

all_below-at :
    (bound : ℕ) (test : ℕ → Bool) (n : ℕ) → n < bound → all_below bound test ≡ true → test n ≡ true
unfolding all_below
all_below-at (suc bound) test n inside every = ground (arith, all_below-at bound test n)
all_below-at zero test n inside every = absurd (omega arith)

byte_mask_table : all_below 256 (λ x. bit_and x 0xff == x) ≡ true
unfolding all_below
byte_mask_table = refl

-- A byte is its own low byte.
pub bit_and-byte : (x : ℕ) → x < 256 → bit_and x 0xff ≡ x
bit_and-byte x h = (==_iff _ x).0 (all_below-at 256 _ x h byte_mask_table)
