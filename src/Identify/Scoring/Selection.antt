-- ===== src/Identify/Scoring/Selection.antt =====
-- What `score_and_resolve` selects.
use phono_junk.Common.{ℕ, suc, ◌≡◌, inl, inr, refl, ap, ◌∙◌, Bool, true, false, ◌&&◌, ◌||◌, some}
use mathlib.Core.List.{Perm}
use phono_junk.Common.{List, [], ◌∷◌, map, length, length-map, All, arith, Bool-cases}
use phono_junk.Toc.{Toc}
use phono_junk.Common.Text.{text_eq}
use phono_junk.Identify.Scoring.{ReleaseCandidate, ScoredCandidate, CandidateResolution, score_of}
use phono_junk.Identify.Scoring.Permutation.{candidate_of, sorted_candidates}
use phono_junk.Identify.Scoring.Resolve.{
  lex_ltb, rank_of, after, insert_scored, sort_scored, score_all, resolve, score_and_resolve,
}

lex_ltb-asym : (r s : List ℕ) → lex_ltb r s ≡ true → lex_ltb s r ≡ false
unfolding lex_ltb
lex_ltb-asym [] [] h = refl
lex_ltb-asym [] (d ∷ ds) h = refl
lex_ltb-asym (c ∷ cs) [] h = cc h
lex_ltb-asym (c ∷ cs) (d ∷ ds) h = ground (arith, lex_ltb-asym cs ds)

-- Ranks that do not fall.
lex_ltb_trans : (r s t : List ℕ) → lex_ltb r s ≡ false → lex_ltb s t ≡ false → lex_ltb r t ≡ false
unfolding lex_ltb
lex_ltb_trans r [] [] h k = h
lex_ltb_trans r [] (e ∷ es) h k = cc k
lex_ltb_trans [] (d ∷ ds) t h k = cc h
lex_ltb_trans (c ∷ cs) (d ∷ ds) [] h k = refl
lex_ltb_trans (c ∷ cs) (d ∷ ds) (e ∷ es) h k = ground (arith, lex_ltb_trans cs ds es)

text_eq-lex_ltb : (r s : List ℕ) → text_eq r s ≡ true → lex_ltb s r ≡ false
unfolding lex_ltb text_eq
text_eq-lex_ltb [] [] h = refl
text_eq-lex_ltb [] (d ∷ ds) h = refl
text_eq-lex_ltb (c ∷ cs) [] h = cc h
text_eq-lex_ltb (c ∷ cs) (d ∷ ds) h = ground (arith, text_eq-lex_ltb cs ds)

not_below :
    (r s : List ℕ) (b : Bool) → (lex_ltb r s || (text_eq r s && b)) ≡ true → lex_ltb s r ≡ false
not_below r s b h = elim (Bool-cases (lex_ltb r s)) [
  | inl less ↦ lex_ltb-asym r s less
  | inr more ↦ elim (Bool-cases (text_eq r s)) [
    | inl same ↦ text_eq-lex_ltb r s same
    | inr other ↦
        let no : (lex_ltb r s || (text_eq r s && b)) ≡ false = rw more (rw other refl) in
        absurd (cc (no, h))
  ]
]

below_false :
    (r s : List ℕ) (b : Bool) → (lex_ltb r s || (text_eq r s && b)) ≡ false → lex_ltb r s ≡ false
below_false r s b h = elim (Bool-cases (lex_ltb r s)) [
  | inl less ↦
      let yes : (lex_ltb r s || (text_eq r s && b)) ≡ true = rw less refl in absurd (cc (yes, h))
  | inr more ↦ more
]

module _ {Value : Type 0} where
  -- No candidate of a list ranks above `s`.
  abbrev pub Leads : ScoredCandidate Value → List (ScoredCandidate Value) → Type 0
  Leads s ts = All (λ (t : ScoredCandidate Value). lex_ltb (rank_of s) (rank_of t) ≡ false) ts

  after_above :
      (s t : ScoredCandidate Value) → after s t ≡ true → lex_ltb (rank_of t) (rank_of s) ≡ false
  unfolding after
  after_above s t h = not_below (rank_of s) (rank_of t) _ h

  not_after :
      (s t : ScoredCandidate Value) → after s t ≡ false → lex_ltb (rank_of s) (rank_of t) ≡ false
  unfolding after
  not_after s t h = below_false (rank_of s) (rank_of t) _ h

  above_leader :
      (s t : ScoredCandidate Value) (ts : List (ScoredCandidate Value))
      → lex_ltb (rank_of s) (rank_of t) ≡ false
      → Leads t ts
      → Leads s ts
  above_leader s t [] h k = tt
  above_leader s t (u ∷ us) h k =
      (lex_ltb_trans (rank_of s) (rank_of t) (rank_of u) h k.0, above_leader s t us h k.1)

  insert_scored-Leads :
      (t s : ScoredCandidate Value) (ts : List (ScoredCandidate Value))
      → lex_ltb (rank_of t) (rank_of s) ≡ false
      → Leads t ts
      → Leads t (insert_scored s ts)
  unfolding insert_scored
  insert_scored-Leads t s [] h k = (h, tt)
  insert_scored-Leads t s (u ∷ us) h k = elim (Bool-cases (after s u)) [
    | inl later ↦ rw later (k.0, insert_scored-Leads t s us h k.1)
    | inr first ↦ rw first (h, k)
  ]

  -- The first of a list leads the others.
  Led : List (ScoredCandidate Value) → Type 0
  Led [] = Unit
  Led (s ∷ ts) = Leads s ts

  insert_scored-Led :
      (s : ScoredCandidate Value) (ts : List (ScoredCandidate Value))
      → Led ts
      → Led (insert_scored s ts)
  unfolding insert_scored Led
  insert_scored-Led s [] h = tt
  insert_scored-Led s (t ∷ ts) h = elim (Bool-cases (after s t)) [
    | inl later ↦ rw later (insert_scored-Leads t s ts (after_above s t later) h)
    | inr first ↦ let top = not_after s t first in rw first (top, above_leader s t ts top h)
  ]

  sort_scored-Led : (ss : List (ScoredCandidate Value)) → Led (sort_scored ss)
  unfolding sort_scored Led
  sort_scored-Led [] = tt
  sort_scored-Led (s ∷ ss) = insert_scored-Led s (sort_scored ss) (sort_scored-Led ss)

  length-insert_scored :
      (s : ScoredCandidate Value) (ts : List (ScoredCandidate Value))
      → length (insert_scored s ts) ≡ suc (length ts)
  unfolding insert_scored
  length-insert_scored s [] = refl
  length-insert_scored s (t ∷ ts) = elim (Bool-cases (after s t)) [
    | inl later ↦ rw later (ap suc (length-insert_scored s ts))
    | inr first ↦ rw first refl
  ]

  length-sort_scored : (ss : List (ScoredCandidate Value)) → length (sort_scored ss) ≡ length ss
  unfolding sort_scored
  length-sort_scored [] = refl
  length-sort_scored (s ∷ ss) =
      length-insert_scored s (sort_scored ss) ∙ ap suc (length-sort_scored ss)

  insert_scored-All :
      (P : ScoredCandidate Value → Type 0) (s : ScoredCandidate Value)
      (ts : List (ScoredCandidate Value))
      → P s
      → All P ts
      → All P (insert_scored s ts)
  unfolding insert_scored
  insert_scored-All P s [] p h = (p, tt)
  insert_scored-All P s (t ∷ ts) p h = elim (Bool-cases (after s t)) [
    | inl later ↦ rw later (h.0, insert_scored-All P s ts p h.1)
    | inr first ↦ rw first (p, h)
  ]

  sort_scored-All :
      (P : ScoredCandidate Value → Type 0) (ss : List (ScoredCandidate Value))
      → All P ss
      → All P (sort_scored ss)
  unfolding sort_scored
  sort_scored-All P [] h = tt
  sort_scored-All P (s ∷ ss) h =
      insert_scored-All P s (sort_scored ss) h.0 (sort_scored-All P ss h.1)

  -- Its score is that of its candidate.
  abbrev pub Scored : Toc → List (ReleaseCandidate Value) → ScoredCandidate Value → Type 0
  Scored toc candidates s = s.score ≡ score_of toc candidates s.candidate

  score_all-Scored :
      (toc : Toc) (candidates cs : List (ReleaseCandidate Value))
      → All (Scored toc candidates) (score_all toc candidates cs)
  unfolding score_all
  score_all-Scored toc candidates [] = tt
  score_all-Scored toc candidates (c ∷ cs) = (refl, score_all-Scored toc candidates cs)

  resolve_of :
      (P : ScoredCandidate Value → Type 0) (cs : List (ReleaseCandidate Value))
      (ss : List (ScoredCandidate Value)) (n : ℕ)
      → length ss ≡ suc n
      → Led ss
      → All P ss
      → Perm (map candidate_of ss) cs
      → (r : CandidateResolution Value) × (resolve ss ≡ some r)
        × Leads r.selected r.alternatives
        × (length r.alternatives ≡ n)
        × Perm (map candidate_of (r.selected ∷ r.alternatives)) cs
        × All P (r.selected ∷ r.alternatives)
  unfolding resolve Led
  resolve_of P cs [] n size led h perm = absurd (omega (arith, size))
  resolve_of P cs (s ∷ ss) n size led h perm = (_, refl, led, omega (arith, size), perm, h)

  -- `score_and_resolve` on one candidate or more selects one, such that no other ranks above it, and
  -- keeps the others as alternatives: the candidate selected and those of the alternatives are
  -- together the given ones, in some order, unchanged and as often as given, each with the score
  -- that it has among all candidates.
  pub score_and_resolve_selected :
      (toc : Toc) (c : ReleaseCandidate Value) (cs : List (ReleaseCandidate Value))
      → (r : CandidateResolution Value) × (score_and_resolve toc (c ∷ cs) ≡ some r)
        × Leads r.selected r.alternatives
        × (length r.alternatives ≡ length cs)
        × Perm (map candidate_of (r.selected ∷ r.alternatives)) (c ∷ cs)
        × All (Scored toc (c ∷ cs)) (r.selected ∷ r.alternatives)
  unfolding score_and_resolve score_all
  score_and_resolve_selected toc c cs =
      let scored = score_all toc (c ∷ cs) (c ∷ cs) in
      resolve_of (Scored toc (c ∷ cs)) (c ∷ cs) (sort_scored scored) (length cs)
        (length-sort_scored scored
          ∙ ap suc (length-map cs (λ d. record { candidate = d; score = score_of toc (c ∷ cs) d })))
        (sort_scored-Led scored)
        (sort_scored-All (Scored toc (c ∷ cs)) scored (score_all-Scored toc (c ∷ cs) (c ∷ cs)))
        (sorted_candidates toc (c ∷ cs) (c ∷ cs))
