-- ===== src/Identify/Scoring/Resolve.antt =====
-- The ranking of `score_and_resolve`.
use phono_junk.Common.{ℕ, Bool, true, false, ◌&&◌, ◌||◌, Option, none, some}
use phono_junk.Common.{List, [], ◌∷◌, map, ltb, ◌==◌, if◌then◌else◌}
use phono_junk.Toc.{Toc}
use phono_junk.Common.Text.{text_eq}
use phono_junk.Identify.Scoring.{
  ReleaseCandidate, ScoredCandidate, CandidateResolution, evidence_components, score_rank, score_of,
}

-- `<` on strings, and on tuples as lists
unfoldable pub lex_ltb : List ℕ → List ℕ → Bool
lex_ltb [] [] = false
lex_ltb [] (d ∷ ds) = true
lex_ltb (c ∷ cs) [] = false
lex_ltb (c ∷ cs) (d ∷ ds) = ltb c d || (c == d && lex_ltb cs ds)

module _ {Value : Type 0} where
  abbrev pub rank_of : ScoredCandidate Value → List ℕ
  rank_of s = score_rank s.score

  -- The comparison of `sort_by` is `Greater`: a higher rank first, then the lower key.
  unfoldable pub after : ScoredCandidate Value → ScoredCandidate Value → Bool
  unfolding lex_ltb
  after left right =
      lex_ltb (rank_of left) (rank_of right)
      || (text_eq (rank_of left) (rank_of right)
          && lex_ltb right.candidate.candidate_key left.candidate.candidate_key)

  -- `sort_by`, which keeps the order of equal elements.
  unfoldable pub insert_scored :
      ScoredCandidate Value → List (ScoredCandidate Value) → List (ScoredCandidate Value)
  unfolding after
  insert_scored s [] = s ∷ []
  insert_scored s (t ∷ ts) =
      let rest = insert_scored s ts in if after s t then t ∷ rest else s ∷ t ∷ ts

  unfoldable pub sort_scored : List (ScoredCandidate Value) → List (ScoredCandidate Value)
  unfolding insert_scored
  sort_scored [] = []
  sort_scored (s ∷ ss) = insert_scored s (sort_scored ss)

  unfoldable pub score_all :
      Toc
      → List (ReleaseCandidate Value)
      → List (ReleaseCandidate Value)
      → List (ScoredCandidate Value)
  unfolding score_of
  score_all toc candidates cs =
      map (λ c. record { candidate = c; score = score_of toc candidates c }) cs

  abbrev pub same_evidence : ScoredCandidate Value → List (ScoredCandidate Value) → Bool
  same_evidence selected [] = false
  same_evidence selected (runner_up ∷ rest) =
      text_eq (evidence_components runner_up.score) (evidence_components selected.score)

  -- `scored.remove(0)` and the rest; without a candidate there is no resolution.
  unfoldable pub resolve : List (ScoredCandidate Value) → Option (CandidateResolution Value)
  resolve [] = none
  resolve (selected ∷ alternatives) = some (record {
    selected = selected;
    alternatives = alternatives;
    evidentially_ambiguous = same_evidence selected alternatives;
  })

  unfoldable pub score_and_resolve :
      Toc → List (ReleaseCandidate Value) → Option (CandidateResolution Value)
  unfolding score_all sort_scored resolve
  score_and_resolve toc candidates = resolve (sort_scored (score_all toc candidates candidates))
