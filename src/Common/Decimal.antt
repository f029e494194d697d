-- ===== src/Common/Decimal.antt =====
-- Decimal text: `{}` and `{:0width}` of an unsigned number, and `parse` of one.
use Prim.Native.Nat.{ℕ, zero, suc, ◌+◌, ◌-◌, ◌*◌, ◌/◌, ◌%◌, ◌≤◌, ◌<◌}
use mathlib.Core.Path.{◌≡◌, refl, ◌∙◌}
use mathlib.Core.Logic.{inl, inr}
use mathlib.Core.Bool.{false, ◌&&◌}
use mathlib.Core.Option.{Option, none, some}
use mathlib.Core.List.{[], ◌∷◌}
use native.Mathlib.Omega.{arith}
use phono_junk.Common.Tests.{ltb, leb, ◌==◌, if◌then◌else◌, le→leb, lt→ltb, le→ltb_false, le_or_lt}
use phono_junk.Common.Lists.{length, All}
use phono_junk.Common.Hex.{Text}

-- The digits of `n` in front of `acc`; each round divides by ten, so that `suc n` rounds are enough.
unfoldable pub decimal_loop : ℕ → ℕ → Text → Text
decimal_loop zero n acc = acc
decimal_loop (suc fuel) n acc =
    let rest = decimal_loop fuel (n / 10) ((48 + n % 10) ∷ acc) in
    if ltb n 10 then (48 + n) ∷ acc else rest

unfoldable pub decimal : ℕ → Text
unfolding decimal_loop
decimal n = decimal_loop (suc n) n []

-- The loop of `parse` for a type with the given largest value.
unfoldable pub parse_digits : ℕ → ℕ → Text → Option ℕ
parse_digits largest acc [] = some acc
parse_digits largest acc (c ∷ cs) =
    let rest = parse_digits largest (acc * 10 + (c - 48)) cs in
    if leb 48 c && leb c 57 && leb (acc * 10 + (c - 48)) largest then rest else none

-- Empty text and a lone sign are errors; one leading `+` is skipped.
unfoldable pub parse_unsigned : ℕ → Text → Option ℕ
unfolding parse_digits
parse_unsigned largest [] = none
parse_unsigned largest (c ∷ []) = if c == b'+' then none else parse_digits largest 0 (c ∷ [])
parse_unsigned largest (c ∷ d ∷ cs) =
    if c == b'+' then parse_digits largest 0 (d ∷ cs) else parse_digits largest 0 (c ∷ d ∷ cs)

abbrev pub IsDigit : ℕ → Type 0
IsDigit c = (48 ≤ c) × (c ≤ 57)

decimal_loop-All :
    (P : ℕ → Type 0) (fuel n : ℕ) (acc : Text)
    → ((c : ℕ) → IsDigit c → P c)
    → All P acc
    → All P (decimal_loop fuel n acc)
unfolding decimal_loop
decimal_loop-All P zero n acc f h = h
decimal_loop-All P (suc fuel) n acc f h = elim (le_or_lt 10 n) [
  | inl le ↦ rw (le→ltb_false n 10 le) (
      decimal_loop-All P fuel (n / 10) ((48 + n % 10) ∷ acc) f
        (f (48 + n % 10) (omega arith, omega arith), h))
  | inr lt ↦ rw (lt→ltb n 10 lt) (f (48 + n) (omega arith, omega arith), h)
]

-- The digits satisfy what every digit satisfies.
pub decimal-All : (P : ℕ → Type 0) (n : ℕ) → ((c : ℕ) → IsDigit c → P c) → All P (decimal n)
unfolding decimal
decimal-All P n f = decimal_loop-All P (suc n) n [] f tt

parse_digits-decimal_loop :
    (largest fuel n : ℕ) (acc : Text)
    → n < fuel
    → n ≤ largest
    → parse_digits largest 0 (decimal_loop fuel n acc) ≡ parse_digits largest n acc
unfolding decimal_loop parse_digits
parse_digits-decimal_loop largest zero n acc h le = elim h [ ]
parse_digits-decimal_loop largest (suc fuel) n acc h le = elim (le_or_lt 10 n) [
  | inl many ↦
      let value : n / 10 * 10 + (48 + n % 10 - 48) ≡ n = omega arith in
      rw (le→ltb_false n 10 many) (
        parse_digits-decimal_loop largest fuel (n / 10) ((48 + n % 10) ∷ acc) (omega arith)
          (omega arith)
        ∙ rw (le→leb 48 (48 + n % 10) (omega arith))
            (rw (le→leb (48 + n % 10) 57 (omega arith)) (rw value (rw (le→leb n largest le) refl))))
  | inr few ↦
      let value : 0 * 10 + (48 + n - 48) ≡ n = omega arith in
      rw (lt→ltb n 10 few) (
        rw (le→leb 48 (48 + n) (omega arith))
          (rw (le→leb (48 + n) 57 (omega arith)) (rw value (rw (le→leb n largest le) refl))))
]

-- Without a sign the text is read digit by digit.
unsigned_digits :
    (largest c : ℕ) (cs : Text)
    → (c == b'+') ≡ false
    → parse_unsigned largest (c ∷ cs) ≡ parse_digits largest 0 (c ∷ cs)
unfolding parse_unsigned
unsigned_digits largest c [] h = rw h refl
unsigned_digits largest c (d ∷ cs) h = rw h refl

read_digits :
    (largest n : ℕ) (text : Text)
    → All IsDigit text
    → parse_digits largest 0 text ≡ some n
    → 0 < length text
    → parse_unsigned largest text ≡ some n
read_digits largest n [] h e l = absurd (omega arith)
read_digits largest n (c ∷ cs) h e l =
    let low : 48 ≤ c = h.0.0 in unsigned_digits largest c cs (ground (arith, low)) ∙ e

length-decimal_loop :
    (fuel n : ℕ) (acc : Text) → 0 < fuel → length acc < length (decimal_loop fuel n acc)
unfolding decimal_loop
length-decimal_loop zero n acc h = absurd (omega arith)
length-decimal_loop (suc zero) n acc h = elim (le_or_lt 10 n) [
  | inl le ↦ rw (le→ltb_false n 10 le) (omega arith)
  | inr lt ↦ rw (lt→ltb n 10 lt) (omega arith)
]
length-decimal_loop (suc (suc fuel)) n acc h = elim (le_or_lt 10 n) [
  | inl le ↦
      rw (le→ltb_false n 10 le)
        (omega (arith, length-decimal_loop (suc fuel) (n / 10) ((48 + n % 10) ∷ acc) (omega arith)))
  | inr lt ↦ rw (lt→ltb n 10 lt) (omega arith)
]

-- A number that fits is read back.
pub parse_unsigned-decimal :
    (largest n : ℕ) → n ≤ largest → parse_unsigned largest (decimal n) ≡ some n
parse_unsigned-decimal largest n le =
    read_digits largest n (decimal n) (decimal-All IsDigit n (λ c d. d))
      (unfold decimal in
        parse_digits-decimal_loop largest (suc n) n [] (omega arith) le
        ∙ (unfold parse_digits in refl))
      (unfold decimal in omega (arith, length-decimal_loop (suc n) n [] (omega arith)))
