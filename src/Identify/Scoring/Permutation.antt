-- ===== src/Identify/Scoring/Permutation.antt =====
-- The sort of `score_and_resolve` keeps all candidates.
use mathlib.Core.List.Perm
use mathlib.Core.List.{Perm}
use mathlib.Core.Path.{subst}
use phono_junk.Common.{◌≡◌, refl, ap, inl, inr, List, [], ◌∷◌, map, Bool-cases}
use phono_junk.Toc.{Toc}
use phono_junk.Identify.Scoring.{ReleaseCandidate, ScoredCandidate}
use phono_junk.Identify.Scoring.Resolve.{after, insert_scored, sort_scored, score_all}

module _ {Value : Type 0} where
  abbrev pub candidate_of : ScoredCandidate Value → ReleaseCandidate Value
  candidate_of s = s.candidate

  insert_scored_perm :
      (s : ScoredCandidate Value) (ts : List (ScoredCandidate Value))
      → Perm (insert_scored s ts) (s ∷ ts)
  unfolding insert_scored
  insert_scored_perm s [] = Perm.refl (s ∷ [])
  insert_scored_perm s (t ∷ ts) = elim (Bool-cases (after s t)) [
    | inl later ↦ rw later (Perm.trans (Perm.cons t (insert_scored_perm s ts)) (Perm.swap s t ts))
    | inr first ↦ rw first (Perm.refl (s ∷ t ∷ ts))
  ]

  pub sort_scored_perm : (ss : List (ScoredCandidate Value)) → Perm (sort_scored ss) ss
  unfolding sort_scored
  sort_scored_perm [] = Perm.nil
  sort_scored_perm (s ∷ ss) =
      Perm.trans (insert_scored_perm s (sort_scored ss)) (Perm.cons s (sort_scored_perm ss))

  candidates-score_all :
      (toc : Toc) (candidates cs : List (ReleaseCandidate Value))
      → map candidate_of (score_all toc candidates cs) ≡ cs
  unfolding score_all
  candidates-score_all toc candidates [] = refl
  candidates-score_all toc candidates (c ∷ cs) =
      ap (λ (l : List (ReleaseCandidate Value)). c ∷ l) (candidates-score_all toc candidates cs)

  -- The candidates of the sorted scores are those that were scored.
  pub sorted_candidates :
      (toc : Toc) (candidates cs : List (ReleaseCandidate Value))
      → Perm (map candidate_of (sort_scored (score_all toc candidates cs))) cs
  sorted_candidates toc candidates cs =
      subst
        (λ (l : List (ReleaseCandidate Value)).
          Perm (map candidate_of (sort_scored (score_all toc candidates cs))) l)
        (candidates-score_all toc candidates cs)
        (Perm.map candidate_of (sort_scored_perm (score_all toc candidates cs)))
