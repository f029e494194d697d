-- ===== src/AccurateRip/Offset/Choice.antt =====
-- `verify_with_offsets`: the frontier of shifts, and the choice among the candidates.
use phono_junk.Common.{
  is_empty, ℕ, zero, suc, ◌+◌, min, Bool, true, false, ◌&&◌, ◌||◌, Option, none, some,
}
use phono_junk.Common.{List, [], ◌∷◌, ◌++◌, map, length, ltb, ◌==◌, if◌then◌else◌}
use phono_junk.Common.Outcome.{Outcome, ok, ◌>>=◌}
use phono_junk.Common.Int.{ℤ, pos, negsuc}
use phono_junk.AccurateRip.Dbar.{DbarFile}
use phono_junk.AccurateRip.Verify.{TrackVerification, ambiguous}
use phono_junk.AccurateRip.Offset.{
  default_max_sample_shift, DiscTrackSamples, OffsetCandidate, Rank, rank, PrefixSums, prefix_sums,
  TrackWindow, windows_from, disc_samples, shifted_v1, shifted_frame_450,
}
use phono_junk.AccurateRip.Offset.Search.{
  VerificationStatus, disc_verified, disc_mismatched, disc_no_data, ambiguous_offsets,
  VerificationSummary, primary_matches, frame_support, evaluate_candidate,
}

abbrev pub Evaluated : Type 0
Evaluated = OffsetCandidate × List TrackVerification

-- `options.max_sample_shift.clamp(0, DEFAULT_MAX_SAMPLE_SHIFT)`
abbrev pub clamp_shift : ℤ → ℕ
clamp_shift (pos n) = min n default_max_sample_shift
clamp_shift (negsuc n) = 0

-- `-max_shift..=max_shift`
unfoldable pub negative_shifts : ℕ → List ℤ
negative_shifts zero = []
negative_shifts (suc n) = negsuc n ∷ negative_shifts n

unfoldable pub positive_shifts : ℕ → ℕ → List ℤ
positive_shifts zero n = []
positive_shifts (suc left) n = pos n ∷ positive_shifts left (n + 1)

unfoldable pub shift_range : ℕ → List ℤ
unfolding negative_shifts positive_shifts
shift_range max_shift = negative_shifts max_shift ++ positive_shifts (max_shift + 1) 0

abbrev pub is_zero : ℤ → Bool
is_zero (pos zero) = true
is_zero (pos (suc n)) = false
is_zero (negsuc n) = false

-- The inner loop of the first pass, which stops at the first evidence.
unfoldable pub any_evidence :
    {E : Type 0} → DbarFile → PrefixSums → ℤ → List TrackWindow → Outcome E Bool
any_evidence dbar prefix shift [] = ok (is_zero shift)
any_evidence dbar prefix shift (window ∷ windows) = do
  v1 ← shifted_v1 prefix window shift
  frame_450 ← shifted_frame_450 prefix window shift
  primary ← primary_matches dbar window.position v1
  support ← (if primary then ok true else frame_support dbar window.position frame_450)
  if support then ok true else any_evidence dbar prefix shift windows

-- Evaluates a shift of the frontier.
unfoldable pub add_if :
    {E : Type 0} → Bool → Outcome E Evaluated → List Evaluated → Outcome E (List Evaluated)
add_if true evaluation rest = do one ← evaluation; ok (one ∷ rest)
add_if false evaluation rest = ok rest

-- The first pass and the evaluation of its shifts.
unfoldable pub evaluate_frontier :
    {E : Type 0}
    → DbarFile
    → List ℕ
    → PrefixSums
    → List TrackWindow
    → List ℤ
    → Outcome E (List Evaluated)
unfolding any_evidence add_if
evaluate_frontier dbar disc prefix windows [] = ok []
evaluate_frontier dbar disc prefix windows (shift ∷ shifts) = do
  evidence ← any_evidence dbar prefix shift windows
  rest ← evaluate_frontier dbar disc prefix windows shifts
  add_if evidence (evaluate_candidate dbar disc prefix windows shift) rest

-- The order of the ranks, field by field.
unfoldable pub rank_ltb : Rank → Rank → Bool
rank_ltb (a, b, c, d) (a', b', c', d') =
    ltb a a' || (a == a' && (ltb b b' || (b == b' && (ltb c c' || (c == c' && ltb d d')))))

unfoldable pub rank_eq : Rank → Rank → Bool
rank_eq (a, b, c, d) (a', b', c', d') = a == a' && (b == b' && (c == c' && d == d'))

unfoldable pub best_rank : List Evaluated → Option Rank
unfolding rank_ltb
best_rank [] = none
best_rank (e ∷ es) = elim (best_rank es) [
  | none ↦ some (rank e.0)
  | some r ↦ some (if rank_ltb r (rank e.0) then rank e.0 else r)
]

-- The candidates at `best_indices`.
unfoldable pub with_rank : Rank → List Evaluated → List Evaluated
unfolding rank_eq
with_rank r [] = []
with_rank r (e ∷ es) = let rest = with_rank r es in if rank_eq (rank e.0) r then e ∷ rest else rest

abbrev pub without_shift : TrackVerification → TrackVerification
without_shift t = record t { sample_shift = none }

abbrev pub mark_ambiguous : TrackVerification → TrackVerification
mark_ambiguous t = record t { sample_shift = none; status = ambiguous }

-- `.find(|(candidate, _)| candidate.sample_shift == 0).map(…).unwrap_or_default()`
unfoldable pub tracks_at_zero : List Evaluated → List TrackVerification
tracks_at_zero [] = []
tracks_at_zero (e ∷ es) =
    let rest = tracks_at_zero es in if is_zero e.0.sample_shift then e.1 else rest

abbrev pub summary_without :
    VerificationStatus → List TrackVerification → List OffsetCandidate → VerificationSummary
summary_without status tracks candidates = record {
  status = status;
  chosen_sample_shift = none;
  tracks = tracks;
  ambiguous_offsets = candidates;
}

-- The last part, on the candidates of the best rank; `at_zero` are the results at shift 0.
unfoldable pub choose_best : List Evaluated → List TrackVerification → VerificationSummary
choose_best (e ∷ []) at_zero = record {
  status = if ltb 0 e.0.full_matches then disc_verified else disc_mismatched;
  chosen_sample_shift = some e.0.sample_shift;
  tracks = e.1;
  ambiguous_offsets = [];
}
choose_best [] at_zero = summary_without ambiguous_offsets (map mark_ambiguous at_zero) []
choose_best (e ∷ f ∷ es) at_zero =
    summary_without ambiguous_offsets (map mark_ambiguous at_zero) (map (λ g. g.0) (e ∷ f ∷ es))

unfoldable pub decide : List Evaluated → List TrackVerification → VerificationSummary
unfolding best_rank with_rank tracks_at_zero choose_best
decide evaluated at_zero = elim (best_rank evaluated) [
  | none ↦ summary_without disc_mismatched [] []
  | some r ↦
      if rank_eq r (0, 0, 0, 0)
      then summary_without disc_mismatched (map without_shift (tracks_at_zero evaluated)) []
      else choose_best (with_rank r evaluated) at_zero
]

unfoldable pub verify_with_offsets :
    {E : Type 0} → DbarFile → List DiscTrackSamples → ℤ → Outcome E VerificationSummary
unfolding shift_range evaluate_frontier decide
verify_with_offsets dbar tracks max_sample_shift =
    if is_empty tracks || is_empty dbar.responses
    then ok (summary_without disc_no_data [] [])
    else (do
      let windows : List TrackWindow = windows_from 0 (length tracks) 0 tracks
      let disc : List ℕ = disc_samples tracks
      let prefix : PrefixSums = prefix_sums disc
      evaluated ←
          evaluate_frontier dbar disc prefix windows (shift_range (clamp_shift max_sample_shift))
      -- The results at shift 0, which the frontier always holds, serve a tie.
      at_zero ← evaluate_candidate dbar disc prefix windows (pos 0)
      ok (decide evaluated at_zero.1))
