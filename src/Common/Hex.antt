-- ===== src/Common/Hex.antt =====
-- Text as the code points of its characters, and the hexadecimal forms of the standard library:
-- `{:08x}`, `{:08X}`, `{:02X}`, and `u32::from_str_radix(text, 16)`.
use Prim.Native.Nat.{ℕ, zero, suc, ◌+◌, ◌-◌, ◌*◌, ◌/◌, ◌%◌, ◌^◌, ◌<◌}
use mathlib.Core.Path.{◌≡◌, refl, sym, ap, ◌∙◌}
use mathlib.Core.Bool.{Bool, false, ◌&&◌}
use mathlib.Core.Option.{Option, none, some}
use mathlib.Core.List.{List, [], ◌∷◌, ◌++◌, append_assoc, append-nil}
use native.Mathlib.Nat.{pow-suc}
use native.Mathlib.Omega.{arith}
use phono_junk.Common.Tests.{ltb, leb, ◌==◌, if◌then◌else◌}
use phono_junk.Common.Lists.{length, length-append}

abbrev pub Text : Type 0
Text = List ℕ

unfoldable pub digit_char : Bool → ℕ → ℕ
digit_char upper d = if ltb d 10 then 48 + d else if upper then 55 + d else 87 + d

-- The `width` hexadecimal digits of a number below `16 ^ width`, zeros in front.
unfoldable pub hex : Bool → ℕ → ℕ → Text
unfolding digit_char
hex upper zero n = []
hex upper (suc width) n = hex upper width (n / 16) ++ digit_char upper (n % 16) ∷ []

-- `char::to_digit(16)`
unfoldable pub digit_value : ℕ → Option ℕ
digit_value c =
    if leb 48 c && leb c 57
    then some (c - 48)
    else if leb 65 c && leb c 70
    then some (c - 55)
    else if leb 97 c && leb c 102
    then some (c - 87)
    else none

-- The loop of `from_str_radix`: an invalid digit and an overflow are errors.
unfoldable pub parse_hex : ℕ → Text → Option ℕ
unfolding digit_value
parse_hex acc [] = some acc
parse_hex acc (c ∷ cs) = elim (digit_value c) [
  | none ↦ none
  | some d ↦
      let rest = parse_hex (acc * 16 + d) cs in if ltb (acc * 16 + d) (2 ^ 32) then rest else none
]

-- Empty text and a lone sign are errors; one leading `+` is skipped.
unfoldable pub from_str_radix_16 : Text → Option ℕ
from_str_radix_16 [] = none
from_str_radix_16 (c ∷ []) = if c == b'+' then none else parse_hex 0 (c ∷ [])
from_str_radix_16 (c ∷ d ∷ cs) =
    if c == b'+' then parse_hex 0 (d ∷ cs) else parse_hex 0 (c ∷ d ∷ cs)

pub length-hex : (upper : Bool) (width n : ℕ) → length (hex upper width n) ≡ width
unfolding hex
length-hex upper zero n = refl
length-hex upper (suc w) n = omega (
  arith,
  length-append (hex upper w (n / 16)) (digit_char upper (n % 16) ∷ []),
  length-hex upper w (n / 16),
)

digit_value-digit_char : (upper : Bool) (d : ℕ) → d < 16 → digit_value (digit_char upper d) ≡ some d
unfolding digit_value digit_char
digit_value-digit_char upper d h = ground arith

parse_hex-step :
    (upper : Bool) (acc d : ℕ) (rest : Text)
    → d < 16
    → acc * 16 + d < 2 ^ 32
    → parse_hex acc (digit_char upper d ∷ rest) ≡ parse_hex (acc * 16 + d) rest
unfolding parse_hex
parse_hex-step upper acc d rest h fits = ground (arith, digit_value-digit_char upper d h)

pub parse_hex-hex :
    (upper : Bool) (width n acc : ℕ) (rest : Text)
    → n < 16 ^ width
    → acc * 16 ^ width + n < 2 ^ 32
    → parse_hex acc (hex upper width n ++ rest) ≡ parse_hex (acc * 16 ^ width + n) rest
unfolding hex
parse_hex-hex upper zero n acc rest h fits =
    ap (λ (t : ℕ). parse_hex t rest) (let e : acc ≡ acc * 16 ^ 0 + n = omega arith in e)
parse_hex-hex upper (suc w) n acc rest h fits =
    let scaled : acc * 16 ^ suc w ≡ 16 * (acc * 16 ^ w) =
      omega (arith, ap (λ (t : ℕ). acc * t) (pow-suc 16 w)) in
    let small : n / 16 < 16 ^ w = omega (arith, pow-suc 16 w) in
    let high : acc * 16 ^ w + n / 16 < 2 ^ 32 = omega (arith, scaled) in
    let total : (acc * 16 ^ w + n / 16) * 16 + n % 16 ≡ acc * 16 ^ suc w + n =
      omega (arith, scaled) in
    ap (parse_hex acc) (append_assoc (hex upper w (n / 16)) (digit_char upper (n % 16) ∷ []) rest)
    ∙ parse_hex-hex upper w (n / 16) acc (digit_char upper (n % 16) ∷ rest) small high
    ∙ parse_hex-step upper (acc * 16 ^ w + n / 16) (n % 16) rest (omega arith)
        (omega (arith, total))
    ∙ ap (λ (t : ℕ). parse_hex t rest) total

digit_char-ne-plus : (upper : Bool) (d : ℕ) → (digit_char upper (d % 16) == b'+') ≡ false
unfolding digit_char
digit_char-ne-plus upper d = ground arith

parse_hex-nil : (n : ℕ) → parse_hex (0 * 16 ^ 8 + n) [] ≡ some n
unfolding parse_hex
parse_hex-nil n = let e : 0 * 16 ^ 8 + n ≡ n = omega arith in ap some e

-- Eight digits printed of a 32-bit number parse to that number.
pub from_str_radix_16-hex :
    (upper : Bool) (n : ℕ) → n < 2 ^ 32 → from_str_radix_16 (hex upper 8 n) ≡ some n
from_str_radix_16-hex upper n h =
    enters
    ∙ ap (parse_hex 0) (sym (append-nil (hex upper 8 n)))
    ∙ parse_hex-hex upper 8 n 0 [] (omega arith) (omega arith)
    ∙ parse_hex-nil n
  where
    enters : from_str_radix_16 (hex upper 8 n) ≡ parse_hex 0 (hex upper 8 n)
    enters = unfold from_str_radix_16 hex in rw digit_char-ne-plus

parse_hex-alone :
    (upper : Bool) (width n : ℕ)
    → n < 16 ^ width
    → n < 2 ^ 32
    → parse_hex 0 (hex upper width n) ≡ some n
unfolding parse_hex
parse_hex-alone upper width n h fits =
    let e : 0 * 16 ^ width + n ≡ n = omega arith in
    ap (parse_hex 0) (sym (append-nil (hex upper width n)))
    ∙ parse_hex-hex upper width n 0 [] h (omega arith)
    ∙ ap some e

-- Two 32-bit numbers with the same digits are the same.
pub hex-injective :
    (upper : Bool) (width a b : ℕ)
    → a < 16 ^ width
    → b < 16 ^ width
    → a < 2 ^ 32
    → b < 2 ^ 32
    → hex upper width a ≡ hex upper width b
    → a ≡ b
hex-injective upper width a b ha hb fa fb e =
    cc
      (parse_hex-alone upper width a ha fa, parse_hex-alone upper width b hb fb, ap (parse_hex 0) e)
