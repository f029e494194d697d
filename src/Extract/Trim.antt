-- ===== src/Extract/Trim.antt =====
-- Texts whose ends are not trimmed.
use phono_junk.Common.{
  ℕ, ◌≡◌, refl, inl, inr, some, [], ◌∷◌, is_empty, get_elem?, get_last?, true, false, ◌&&◌,
  Bool-cases,
}
use phono_junk.Common.Hex.{Text}
use phono_junk.Extract.{is_trimmed, trim_start, trim_end}

-- The first and the last character, if there is one, stay.
abbrev pub StartsKept : Text → Type 0
StartsKept s = (c : ℕ) → get_elem? s 0 ≡ some c → is_trimmed c ≡ false

abbrev pub EndsKept : Text → Type 0
EndsKept s = (c : ℕ) → get_last? s ≡ some c → is_trimmed c ≡ false

pub StartsKept-cons : (x : ℕ) (s : Text) → is_trimmed x ≡ false → StartsKept (x ∷ s)
StartsKept-cons x s h c e = cc (e, h)

pub trim_start-StartsKept : (s : Text) → StartsKept (trim_start s)
unfolding trim_start
trim_start-StartsKept [] = λ c e. cc e
trim_start-StartsKept (x ∷ xs) = elim (Bool-cases (is_trimmed x)) [
  | inl t ↦ rw t (trim_start-StartsKept xs)
  | inr f ↦ rw f (StartsKept-cons x xs f)
]

EndsKept-cons :
    (x : ℕ) (s : Text) → (is_empty s ≡ true → is_trimmed x ≡ false) → EndsKept s → EndsKept (x ∷ s)
EndsKept-cons x [] h k c e = cc (e, h refl)
EndsKept-cons x (y ∷ s) h k c e = k c e

pub trim_end-EndsKept : (s : Text) → EndsKept (trim_end s)
unfolding trim_end
trim_end-EndsKept [] = λ c e. cc e
trim_end-EndsKept (x ∷ xs) = elim (Bool-cases (is_empty (trim_end xs) && is_trimmed x)) [
  | inl t ↦ rw t (λ c e. cc e)
  | inr f ↦ rw f (EndsKept-cons x (trim_end xs) (λ e. rw e at f) (trim_end-EndsKept xs))
]

pub trim_start-kept : (s : Text) → StartsKept s → trim_start s ≡ s
unfolding trim_start
trim_start-kept [] h = refl
trim_start-kept (x ∷ xs) h = rw (h x refl) refl

pub trim_end-kept : (s : Text) → EndsKept s → trim_end s ≡ s
unfolding trim_end
trim_end-kept [] h = refl
trim_end-kept (x ∷ []) h = rw (h x refl) refl
trim_end-kept (x ∷ y ∷ xs) h = rw (trim_end-kept (y ∷ xs) h) refl

-- Trimming the end keeps the start.
pub trim_end-StartsKept : (s : Text) → StartsKept s → StartsKept (trim_end s)
unfolding trim_end
trim_end-StartsKept [] h = h
trim_end-StartsKept (x ∷ xs) h = rw (h x refl) (elim (Bool-cases (is_empty (trim_end xs))) [
  | inl e ↦ rw e (StartsKept-cons x (trim_end xs) (h x refl))
  | inr e ↦ rw e (StartsKept-cons x (trim_end xs) (h x refl))
])
