-- ===== src/Common/Lists.antt =====
-- Lists measured and indexed by native numbers, under the library's names, and predicates on
-- their elements by recursion.
use Prim.Native.Nat.{ℕ, zero, suc, ◌+◌, ◌-◌, ◌<◌, min}
use mathlib.Core.Path.{◌≡◌, refl, ap, subst}
use mathlib.Core.List.{List, [], ◌∷◌, ◌++◌, map}
use mathlib.Core.Option.{Option, none, some}
use mathlib.Core.Bool.{Bool, true, false, ◌||◌}
use native.Mathlib.Omega.{arith}

module _ {ℓ} {A : Type ℓ} where
  abbrev pub length : List A → ℕ
  length [] = 0
  length (x ∷ xs) = suc (length xs)

  abbrev pub get_elem? : List A → ℕ → Option A
  get_elem? [] i = none
  get_elem? (x ∷ xs) zero = some x
  get_elem? (x ∷ xs) (suc i) = get_elem? xs i

  abbrev pub take : ℕ → List A → List A
  take zero xs = []
  take (suc n) [] = []
  take (suc n) (x ∷ xs) = x ∷ take n xs

  abbrev pub drop : ℕ → List A → List A
  drop zero xs = xs
  drop (suc n) [] = []
  drop (suc n) (x ∷ xs) = drop n xs

  abbrev pub is_empty : List A → Bool
  is_empty [] = true
  is_empty (x ∷ xs) = false

  -- `xs.filter(p)`
  abbrev pub keep_if : (A → Bool) → List A → List A
  keep_if p [] = []
  keep_if p (x ∷ xs) = let rest = keep_if p xs in elim (p x) [ true ↦ x ∷ rest | false ↦ rest ]

  -- `xs.last()`
  abbrev pub get_last? : List A → Option A
  get_last? [] = none
  get_last? (x ∷ []) = some x
  get_last? (x ∷ y ∷ xs) = get_last? (y ∷ xs)

  -- `xs.iter().any(p)`; one structural call
  abbrev pub any : (A → Bool) → List A → Bool
  any p [] = false
  any p (x ∷ xs) = p x || any p xs

  abbrev pub All {κ} : (A → Type κ) → List A → Type κ
  All P [] = Unit
  All P (x ∷ xs) = P x × All P xs

  pub length-append : (xs ys : List A) → length (xs ++ ys) ≡ length xs + length ys
  length-append [] ys = omega arith
  length-append (x ∷ xs) ys = omega (arith, length-append xs ys)

  pub take-append : (xs ys : List A) → take (length xs) (xs ++ ys) ≡ xs
  take-append [] ys = refl
  take-append (x ∷ xs) ys = ap (λ (t : List A). x ∷ t) (take-append xs ys)

  pub drop-append : (xs ys : List A) → drop (length xs) (xs ++ ys) ≡ ys
  drop-append [] ys = refl
  drop-append (x ∷ xs) ys = drop-append xs ys

  pub take-append-drop : (n : ℕ) (xs : List A) → take n xs ++ drop n xs ≡ xs
  take-append-drop zero xs = refl
  take-append-drop (suc n) [] = refl
  take-append-drop (suc n) (x ∷ xs) = ap (λ (t : List A). x ∷ t) (take-append-drop n xs)

  pub length-drop : (n : ℕ) (xs : List A) → length (drop n xs) ≡ length xs - n
  length-drop zero xs = omega arith
  length-drop (suc n) [] = omega arith
  length-drop (suc n) (x ∷ xs) = omega (arith, length-drop n xs)

  pub length-take : (n : ℕ) (xs : List A) → length (take n xs) ≡ min n (length xs)
  length-take zero xs = omega arith
  length-take (suc n) [] = omega arith
  length-take (suc n) (x ∷ xs) = omega (arith, length-take n xs)

module _ {ℓ κ} {A : Type ℓ} {B : Type κ} where
  pub length-map : (xs : List A) (f : A → B) → length (map f xs) ≡ length xs
  length-map [] f = refl
  length-map (x ∷ xs) f = ap suc (length-map xs f)

module _ {ℓ} {A : Type ℓ} where
  -- Two texts with prefixes of one length split alike.
  pub append-injective :
      (xs xs' ys ys' : List A)
      → length xs ≡ length xs'
      → (xs ++ ys) ≡ (xs' ++ ys')
      → (xs ≡ xs') × (ys ≡ ys')
  append-injective [] [] ys ys' n e = (refl, e)
  append-injective [] (x' ∷ xs') ys ys' n e = absurd (omega arith)
  append-injective (x ∷ xs) [] ys ys' n e = absurd (omega arith)
  append-injective (x ∷ xs) (x' ∷ xs') ys ys' n e =
      let rest = append-injective xs xs' ys ys' (omega arith) (cc e) in (cc (e, rest.0), rest.1)

  pub get_elem?-ext :
      (xs ys : List A)
      → length xs ≡ length ys
      → ((k : ℕ) → k < length xs → get_elem? xs k ≡ get_elem? ys k)
      → xs ≡ ys
  get_elem?-ext [] [] n h = refl
  get_elem?-ext [] (y ∷ ys) n h = absurd (omega arith)
  get_elem?-ext (x ∷ xs) [] n h = absurd (omega arith)
  get_elem?-ext (x ∷ xs) (y ∷ ys) n h =
      let tails : xs ≡ ys = get_elem?-ext xs ys (omega arith) (λ k lt. h (suc k) (omega arith)) in
      cc (h 0 (omega arith), tails)

  pub get_elem?-lt : (xs : List A) (k : ℕ) → k < length xs → (a : A) × (get_elem? xs k ≡ some a)
  get_elem?-lt [] k h = absurd (omega arith)
  get_elem?-lt (x ∷ xs) zero h = (x, refl)
  get_elem?-lt (x ∷ xs) (suc k) h = get_elem?-lt xs k (omega arith)

  pub All-at {κ} :
      (P : A → Type κ) (xs : List A) (k : ℕ) (a : A) → All P xs → get_elem? xs k ≡ some a → P a
  All-at P [] k a h e = cc
  All-at P (x ∷ xs) zero a h e = subst P (cc) h.0
  All-at P (x ∷ xs) (suc k) a h e = All-at P xs k a h.1 e
