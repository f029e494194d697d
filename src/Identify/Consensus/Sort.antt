-- ===== src/Identify/Consensus/Sort.antt =====
-- `sort_unstable` and `dedup` put the positions in strictly ascending order, and lose none.
use phono_junk.Common.{ℕ, ◌≤◌, ◌<◌, ◌≡◌, ◌⊎◌, inl, inr, sym, ◌∙◌}
use phono_junk.Common.{List, [], ◌∷◌, arith, leb, leb→le, All, ◌==◌, ==_iff, Bool-cases}
use phono_junk.Identify.Consensus.Groups.{insert, sort_unstable, dedup}
use phono_junk.Identify.Consensus.Winner.{Member}

-- Each number is at most those after it; each number is below those after it.
Sorted : List ℕ → Type 0
Sorted [] = Unit
Sorted (x ∷ xs) = All (λ y. x ≤ y) xs × Sorted xs

abbrev pub Rising : List ℕ → Type 0
Rising [] = Unit
Rising (x ∷ xs) = All (λ y. x < y) xs × Rising xs

insert-All : (P : ℕ → Type 0) (n : ℕ) (ms : List ℕ) → P n → All P ms → All P (insert n ms)
unfolding insert
insert-All P n [] p h = (p, h)
insert-All P n (m ∷ ms) p h = elim (Bool-cases (leb n m)) [
  | inl le ↦ rw le (p, h)
  | inr gt ↦ rw gt (h.0, insert-All P n ms p h.1)
]

at_least_trans : (n m : ℕ) (ms : List ℕ) → n ≤ m → All (λ y. m ≤ y) ms → All (λ y. n ≤ y) ms
at_least_trans n m [] h k = tt
at_least_trans n m (x ∷ xs) h k = (omega (arith, k.0), at_least_trans n m xs h k.1)

above_trans : (n m : ℕ) (ms : List ℕ) → n < m → All (λ y. m ≤ y) ms → All (λ y. n < y) ms
above_trans n m [] h k = tt
above_trans n m (x ∷ xs) h k = (omega (arith, k.0), above_trans n m xs h k.1)

insert-Sorted : (n : ℕ) (ms : List ℕ) → Sorted ms → Sorted (insert n ms)
unfolding insert Sorted
insert-Sorted n [] h = (tt, tt)
insert-Sorted n (m ∷ ms) h = elim (Bool-cases (leb n m)) [
  | inl le ↦ let low : n ≤ m = leb→le n m le in rw le ((low, at_least_trans n m ms low h.0), h)
  | inr gt ↦
      let low : m ≤ n = ground (arith, gt) in
      rw gt (insert-All (λ y. m ≤ y) n ms low h.0, insert-Sorted n ms h.1)
]

sort_unstable-Sorted : (ns : List ℕ) → Sorted (sort_unstable ns)
unfolding sort_unstable Sorted
sort_unstable-Sorted [] = tt
sort_unstable-Sorted (n ∷ ns) = insert-Sorted n (sort_unstable ns) (sort_unstable-Sorted ns)

dedup-All : (P : ℕ → Type 0) (ns : List ℕ) → All P ns → All P (dedup ns)
unfolding dedup
dedup-All P [] h = tt
dedup-All P (n ∷ []) h = h
dedup-All P (n ∷ m ∷ ms) h = elim (Bool-cases (n == m)) [
  | inl same ↦ rw same (dedup-All P (m ∷ ms) h.1)
  | inr other ↦ rw other (h.0, dedup-All P (m ∷ ms) h.1)
]

dedup-Rising : (ns : List ℕ) → Sorted ns → Rising (dedup ns)
unfolding dedup Sorted
dedup-Rising [] h = tt
dedup-Rising (n ∷ []) h = (tt, tt)
dedup-Rising (n ∷ m ∷ ms) h = elim (Bool-cases (n == m)) [
  | inl same ↦ rw same (dedup-Rising (m ∷ ms) h.1)
  | inr other ↦
      let low : n ≤ m = h.0.0 in
      let below : n < m = ground (arith, low, other) in
      rw other (
        dedup-All (λ y. n < y) (m ∷ ms) (below, above_trans n m ms below h.1.0),
        dedup-Rising (m ∷ ms) h.1,
      )
]

dedup-Member : (x : ℕ) (ns : List ℕ) → Member x ns → Member x (dedup ns)
unfolding dedup
dedup-Member x [] h = h
dedup-Member x (n ∷ []) h = h
dedup-Member x (n ∷ m ∷ ms) h = elim (Bool-cases (n == m)) [
  | inl same ↦ rw same (elim h [
    | inl here ↦ dedup-Member x (m ∷ ms) (inl (sym ((==_iff n m).0 same) ∙ here))
    | inr later ↦ dedup-Member x (m ∷ ms) later
  ])
  | inr other ↦
      rw other (elim h [ inl here ↦ inl here | inr later ↦ inr (dedup-Member x (m ∷ ms) later) ])
]

insert-Member : (x n : ℕ) (ms : List ℕ) → (n ≡ x) ⊎ Member x ms → Member x (insert n ms)
unfolding insert
insert-Member x n [] h = h
insert-Member x n (m ∷ ms) h = elim (Bool-cases (leb n m)) [
  | inl le ↦ rw le h
  | inr gt ↦ rw gt (elim h [
    | inl here ↦ inr (insert-Member x n ms (inl here))
    | inr (inl first) ↦ inl first
    | inr (inr later) ↦ inr (insert-Member x n ms (inr later))
  ])
]

all_sorted : (P : ℕ → Type 0) (ns : List ℕ) → All P ns → All P (sort_unstable ns)
unfolding sort_unstable
all_sorted P [] h = tt
all_sorted P (n ∷ ns) h = insert-All P n (sort_unstable ns) h.0 (all_sorted P ns h.1)

sort_unstable-Member : (x : ℕ) (ns : List ℕ) → Member x ns → Member x (sort_unstable ns)
unfolding sort_unstable
sort_unstable-Member x [] h = h
sort_unstable-Member x (n ∷ ns) (inl here) = insert-Member x n (sort_unstable ns) (inl here)
sort_unstable-Member x (n ∷ ns) (inr later) =
    insert-Member x n (sort_unstable ns) (inr (sort_unstable-Member x ns later))

-- The positions in order, without repetition.
pub in_order-Rising : (ns : List ℕ) → Rising (dedup (sort_unstable ns))
in_order-Rising ns = dedup-Rising (sort_unstable ns) (sort_unstable-Sorted ns)

pub in_order-Member : (x : ℕ) (ns : List ℕ) → Member x ns → Member x (dedup (sort_unstable ns))
in_order-Member x ns h = dedup-Member x (sort_unstable ns) (sort_unstable-Member x ns h)

pub in_order-All : (P : ℕ → Type 0) (ns : List ℕ) → All P ns → All P (dedup (sort_unstable ns))
in_order-All P ns h = dedup-All P (sort_unstable ns) (all_sorted P ns h)
