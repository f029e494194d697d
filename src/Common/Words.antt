-- ===== src/Common/Words.antt =====
-- Unsigned machine words as native numbers below a power of two. `wrapping_…` is the operation
-- that wraps in every build; `checked_…` is the plain operator, whose overflow is a panic in a
-- build with overflow checks (without them it wraps, and agrees wherever no panic is reached).
use Prim.Native.Nat.{ℕ, ◌+◌, ◌-◌, ◌*◌, ◌%◌, ◌^◌, ◌≤◌, ◌<◌}
use mathlib.Core.Path.{◌≡◌}
use phono_junk.Common.Outcome.{Outcome, ok, panic}
use phono_junk.Common.Tests.{ltb, leb, lt→ltb, le→leb, if◌then◌else◌}

abbrev pub u8_mod : ℕ
u8_mod = 2 ^ 8

abbrev pub u32_mod : ℕ
u32_mod = 2 ^ 32

abbrev pub wrapping_add : ℕ → ℕ → ℕ
wrapping_add a b = (a + b) % u32_mod

abbrev pub wrapping_sub : ℕ → ℕ → ℕ
wrapping_sub a b = (a + u32_mod - b) % u32_mod

abbrev pub wrapping_mul : ℕ → ℕ → ℕ
wrapping_mul a b = (a * b) % u32_mod

-- `a + b` at a type of the given modulus
abbrev pub checked_add {ℓ} : {E : Type ℓ} → ℕ → ℕ → ℕ → Outcome E ℕ
checked_add bound a b = if ltb (a + b) bound then ok (a + b) else panic

-- `a - b` at an unsigned type
abbrev pub checked_sub {ℓ} : {E : Type ℓ} → ℕ → ℕ → Outcome E ℕ
checked_sub a b = if leb b a then ok (a - b) else panic

pub checked_add-fits {ℓ} :
    {E : Type ℓ} (bound a b : ℕ) → a + b < bound → checked_add {E = E} bound a b ≡ ok (a + b)
checked_add-fits bound a b h = rw (lt→ltb _ _ h)

pub checked_sub-le {ℓ} : {E : Type ℓ} (a b : ℕ) → b ≤ a → checked_sub {E = E} a b ≡ ok (a - b)
checked_sub-le a b h = rw (le→leb _ _ h)
