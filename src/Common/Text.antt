-- ===== src/Common/Text.antt =====
-- Comparison of texts, and the text of a string literal.
use Prim.Native.Char.{code}
use Prim.Native.String.{String}
use mathlib.Core.Path.{◌≡◌, refl, sym, ap₂, ◌∙◌}
use mathlib.Core.Logic.{inl, inr}
use mathlib.Core.Bool.{Bool, true, false, ◌&&◌}
use mathlib.Core.List.{[], ◌∷◌}
use Prim.Native.Nat.{ℕ}
use phono_junk.Common.Tests.{◌==◌, ==_iff, Bool-cases}
use phono_junk.Common.Hex.{Text}

-- The characters of a literal.
abbrev pub codes : String → Text
codes String.[] = []
codes (String.◌∷◌ c s) = code c ∷ codes s

-- `==` on strings
unfoldable pub text_eq : Text → Text → Bool
text_eq [] [] = true
text_eq [] (d ∷ ds) = false
text_eq (c ∷ cs) [] = false
text_eq (c ∷ cs) (d ∷ ds) = c == d && text_eq cs ds

pub text_eq_sound : (s t : Text) → text_eq s t ≡ true → s ≡ t
unfolding text_eq
text_eq_sound [] [] h = refl
text_eq_sound [] (d ∷ ds) h = cc h
text_eq_sound (c ∷ cs) [] h = cc h
text_eq_sound (c ∷ cs) (d ∷ ds) h = elim (Bool-cases (c == d)) [
  | inl same ↦
      let r : text_eq (c ∷ cs) (d ∷ ds) ≡ text_eq cs ds = rw same refl in
      ap₂ (λ (x : ℕ) (xs : Text). x ∷ xs) ((==_iff c d).0 same) (text_eq_sound cs ds (sym r ∙ h))
  | inr other ↦ let r : text_eq (c ∷ cs) (d ∷ ds) ≡ false = rw other refl in absurd (cc (r, h))
]

pub text_eq_refl : (s : Text) → text_eq s s ≡ true
unfolding text_eq
text_eq_refl [] = refl
text_eq_refl (c ∷ cs) =
    let here : (c == c) ≡ true = (==_iff c c).1 refl in rw here (text_eq_refl cs)
