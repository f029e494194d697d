-- ===== src/AccurateRip/Offset/Best.antt =====
-- The choice of `verify_with_offsets` among the evaluated shifts.
use phono_junk.Common.{◌≡◌, ◌⊎◌, inl, inr, refl, ap, true, false, none, some}
use phono_junk.Common.{List, [], ◌∷◌, ◌++◌, All, arith, ltb, if◌then◌else◌, Bool-cases}
use phono_junk.AccurateRip.Verify.{TrackVerification}
use phono_junk.AccurateRip.Offset.{Rank, rank}
use phono_junk.AccurateRip.Offset.Search.{disc_verified, disc_mismatched}
use phono_junk.AccurateRip.Offset.Choice.{
  Evaluated, rank_ltb, rank_eq, best_rank, with_rank, choose_best, decide,
}

rank_ltb-asym : (r s : Rank) → rank_ltb r s ≡ true → rank_ltb s r ≡ false
unfolding rank_ltb
rank_ltb-asym (a, b, c, d) (a', b', c', d') h = ground arith

rank_ltb-rank_eq : (r s : Rank) → rank_ltb r s ≡ true → rank_eq r s ≡ false
unfolding rank_ltb rank_eq
rank_ltb-rank_eq (a, b, c, d) (a', b', c', d') h = ground arith

rank_eq_self : (r : Rank) → rank_eq r r ≡ true
unfolding rank_eq
rank_eq_self (a, b, c, d) = ground arith

-- Every candidate ranks below `r`.
abbrev pub Below : Rank → List Evaluated → Type 0
Below r es = All (λ e. rank_ltb (rank e.0) r ≡ true) es

best_rank-Below :
    (r : Rank) (es : List Evaluated)
    → Below r es
    → (best_rank es ≡ none) ⊎ ((s : Rank) × (best_rank es ≡ some s) × (rank_ltb s r ≡ true))
unfolding best_rank
best_rank-Below r [] h = inl refl
best_rank-Below r (e ∷ es) h = elim (best_rank-Below r es h.1) [
  | inl n ↦ inr (rank e.0, rw n refl, h.0)
  | inr (s, m, lt) ↦ elim (Bool-cases (rank_ltb s (rank e.0))) [
    | inl more ↦ inr (rank e.0, rw m (rw more refl), h.0)
    | inr less ↦ inr (s, rw m (rw less refl), lt)
  ]
]

best_rank_unique :
    (before : List Evaluated) (best : Evaluated) (after : List Evaluated)
    → Below (rank best.0) before
    → Below (rank best.0) after
    → best_rank (before ++ best ∷ after) ≡ some (rank best.0)
unfolding best_rank
best_rank_unique [] best after h k = elim (best_rank-Below (rank best.0) after k) [
  | inl n ↦ rw n refl
  | inr (s, m, lt) ↦ rw m (rw lt refl)
]
best_rank_unique (e ∷ before) best after h k =
    rw (best_rank_unique before best after h.1 k)
      (rw (rank_ltb-asym (rank e.0) (rank best.0) h.0) refl)

with_rank-Below : (r : Rank) (es : List Evaluated) → Below r es → with_rank r es ≡ []
unfolding with_rank
with_rank-Below r [] h = refl
with_rank-Below r (e ∷ es) h = rw (rank_ltb-rank_eq (rank e.0) r h.0) (with_rank-Below r es h.1)

with_rank_unique :
    (before : List Evaluated) (best : Evaluated) (after : List Evaluated)
    → Below (rank best.0) before
    → Below (rank best.0) after
    → with_rank (rank best.0) (before ++ best ∷ after) ≡ best ∷ []
unfolding with_rank
with_rank_unique [] best after h k =
    rw (rank_eq_self (rank best.0))
      (ap (λ (l : List Evaluated). best ∷ l) (with_rank-Below (rank best.0) after k))
with_rank_unique (e ∷ before) best after h k =
    rw (rank_ltb-rank_eq (rank e.0) (rank best.0) h.0) (with_rank_unique before best after h.1 k)

-- Where one evaluated shift ranks above all the others, and has any evidence, it is chosen with its
-- results, wherever it stands among them; the disc is verified if a track of it matches in full.
pub decide_unique :
    (before : List Evaluated) (best : Evaluated) (after : List Evaluated)
    (at_zero : List TrackVerification)
    → Below (rank best.0) before
    → Below (rank best.0) after
    → rank_eq (rank best.0) (0, 0, 0, 0) ≡ false
    → decide (before ++ best ∷ after) at_zero ≡ record {
      status = if ltb 0 best.0.full_matches then disc_verified else disc_mismatched;
      chosen_sample_shift = some best.0.sample_shift;
      tracks = best.1;
      ambiguous_offsets = [];
    }
unfolding decide choose_best
decide_unique before best after at_zero h k e =
    rw (best_rank_unique before best after h k, decide)
      (rw e (rw (with_rank_unique before best after h k) refl))
