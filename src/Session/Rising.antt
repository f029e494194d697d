-- ===== src/Session/Rising.antt =====
-- Lists of numbers that climb or rise.
use phono_junk.Common.{ℕ, ◌+◌, ◌<◌, ◌≤◌, List, [], ◌∷◌, ◌++◌, All, arith}

-- Numbers that never fall, from a first bound to a last one.
abbrev pub Climbs : ℕ → ℕ → List ℕ → Type 0
Climbs low high [] = low ≤ high
Climbs low high (x ∷ xs) = (low ≤ x) × Climbs x high xs

-- Numbers that rise, strictly between two bounds.
abbrev pub Rises : ℕ → ℕ → List ℕ → Type 0
Rises low high [] = low < high
Rises low high (x ∷ xs) = (low < x) × Rises x high xs

pub Climbs-append :
    (low middle high : ℕ) (xs ys : List ℕ)
    → Climbs low middle xs
    → Climbs middle high ys
    → Climbs low high (xs ++ ys)
Climbs-append low middle high [] [] h k = omega arith
Climbs-append low middle high [] (y ∷ ys) h k = (omega (arith, k.0), k.1)
Climbs-append low middle high (x ∷ xs) ys h k = (h.0, Climbs-append x middle high xs ys h.1 k)

pub Climbs-more :
    (low high higher : ℕ) (xs : List ℕ) → high ≤ higher → Climbs low high xs → Climbs low higher xs
Climbs-more low high higher [] h k = omega (arith, h, k)
Climbs-more low high higher (x ∷ xs) h k = (k.0, Climbs-more x high higher xs h k.1)

pub Rises-append :
    (low high : ℕ) (xs : List ℕ) → Rises low high xs → Rises low (high + 1) (xs ++ high ∷ [])
Rises-append low high [] h = (h, omega arith)
Rises-append low high (x ∷ xs) h = (h.0, Rises-append x high xs h.1)

pub Rises-more : (low high : ℕ) (xs : List ℕ) → Rises low high xs → Rises low (high + 1) xs
Rises-more low high [] h = omega arith
Rises-more low high (x ∷ xs) h = (h.0, Rises-more x high xs h.1)

pub Rises-lt : (low high : ℕ) (xs : List ℕ) → Rises low high xs → low < high
Rises-lt low high [] h = h
Rises-lt low high (x ∷ xs) h = omega (arith, h.0, Rises-lt x high xs h.1)

pub All-append :
    {A : Type 0} (P : A → Type 0) (xs ys : List A) → All P xs → All P ys → All P (xs ++ ys)
All-append P [] ys h k = k
All-append P (x ∷ xs) ys h k = (h.0, All-append P xs ys h.1 k)
