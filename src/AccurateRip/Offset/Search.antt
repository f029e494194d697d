-- ===== src/AccurateRip/Offset/Search.antt =====
-- `evaluate_candidate` and `verify_with_offsets`.
use phono_junk.Common.{is_empty, ℕ, ◌+◌, min, Bool, true, false, ◌&&◌, not, Option, none, some}
use phono_junk.Common.{List, [], ◌∷◌, ◌++◌, length, any, ◌==◌, if◌then◌else◌}
use phono_junk.Common.Outcome.{Outcome, ok, ◌>>=◌}
use phono_junk.Common.Int.{ℤ}
use phono_junk.AccurateRip.Crc.{TrackCrc}
use phono_junk.AccurateRip.Dbar.{ExpectedChecksum, DbarFile, entries_for_track}
use phono_junk.AccurateRip.Verify.{
  ChecksumVersion, v1, v2, both, CrcMatch, TrackVerification, mismatched, verified, max_confidence,
}
use phono_junk.AccurateRip.Offset.{
  OffsetCandidate, PrefixSums, TrackWindow, shifted_v1, shifted_v2, shifted_frame_450,
}

pub data VerificationStatus : Type 0 where
  disc_verified disc_mismatched disc_no_data ambiguous_offsets : VerificationStatus

pub record VerificationSummary : Type 0 where
  pub status : VerificationStatus
  pub chosen_sample_shift : Option ℤ
  pub tracks : List TrackVerification
  pub ambiguous_offsets : List OffsetCandidate

unfoldable pub primary_matches : {E : Type 0} → DbarFile → ℕ → ℕ → Outcome E Bool
primary_matches dbar position checksum = do
  entries ← entries_for_track dbar position
  ok (any (λ e. e.1.checksum == checksum) entries)

unfoldable pub frame_450_matches : {E : Type 0} → DbarFile → ℕ → ℕ → Outcome E Bool
frame_450_matches dbar position checksum = do
  entries ← entries_for_track dbar position
  ok (any (λ e. not (e.1.checksum_450 == 0) && e.1.checksum_450 == checksum) entries)

-- `frame_450.is_some_and(|crc| frame_450_matches(…))`
unfoldable pub frame_support : {E : Type 0} → DbarFile → ℕ → Option ℕ → Outcome E Bool
unfolding frame_450_matches
frame_support dbar position none = ok false
frame_support dbar position (some crc) = frame_450_matches dbar position crc

-- `match (matches_v1, matches_v2)`
unfoldable pub matched_version : Bool → Bool → Option ChecksumVersion
matched_version true true = some both
matched_version true false = some v1
matched_version false true = some v2
matched_version false false = none

-- `if matches { list.push(matched) }`, in front of the later matches.
abbrev pub push_match : Bool → CrcMatch → List CrcMatch → List CrcMatch
push_match true m ms = m ∷ ms
push_match false m ms = ms

-- The inner loop of `evaluate_candidate`: the matches of v1 and of v2.
unfoldable pub candidate_matches :
    TrackCrc → List (ℕ × ExpectedChecksum) → List CrcMatch × List CrcMatch
unfolding matched_version
candidate_matches crc [] = ([], [])
candidate_matches crc ((pressing, expected) ∷ entries) =
    let rest = candidate_matches crc entries in
    let matches_v2 : Bool = expected.checksum == crc.v2 in
    let matches_v1 : Bool = expected.checksum == crc.v1 in
    elim (matched_version matches_v1 matches_v2) [
      | none ↦ rest
      | some version ↦
          let matched : CrcMatch = record {
            pressing = pressing;
            confidence = expected.confidence;
            checksum = expected.checksum;
            version = version;
          } in
          (push_match matches_v1 matched rest.0, push_match matches_v2 matched rest.1)
    ]

-- A verified track's confidence: `.max().unwrap_or(0)`
abbrev pub or_none : Option ℕ → ℕ
or_none none = 0
or_none (some n) = n

-- What a round of `evaluate_candidate` adds: the result, the confidences, the frame matches.
unfoldable pub evaluate_window :
    {E : Type 0}
    → DbarFile
    → List ℕ
    → PrefixSums
    → TrackWindow
    → ℤ
    → Outcome E (TrackVerification × List ℕ × ℕ)
unfolding candidate_matches frame_support
evaluate_window dbar disc prefix window shift = do
  crc1 ← shifted_v1 prefix window shift
  let crc : TrackCrc = record { v1 = crc1; v2 = shifted_v2 disc window shift }
  frame_450 ← shifted_frame_450 prefix window shift
  support ← frame_support dbar window.position frame_450
  entries ← entries_for_track dbar window.position
  let matches : List CrcMatch × List CrcMatch = candidate_matches crc entries
  let unmatched : Bool = is_empty matches.0 && is_empty matches.1
  ok (
    record {
      position = window.position;
      computed = crc;
      v1_matches = matches.0;
      v2_matches = matches.1;
      sample_shift = some shift;
      frame_450_support = support;
      status = if unmatched then mismatched else verified;
    },
    if unmatched then [] else or_none (max_confidence (matches.1 ++ matches.0)) ∷ [],
    if support then 1 else 0,
  )

unfoldable pub evaluate_windows :
    {E : Type 0}
    → DbarFile
    → List ℕ
    → PrefixSums
    → List TrackWindow
    → ℤ
    → Outcome E (List TrackVerification × List ℕ × ℕ)
unfolding evaluate_window
evaluate_windows dbar disc prefix [] shift = ok ([], [], 0)
evaluate_windows dbar disc prefix (window ∷ windows) shift = do
  one ← evaluate_window dbar disc prefix window shift
  rest ← evaluate_windows dbar disc prefix windows shift
  ok (one.0 ∷ rest.0, one.1 ++ rest.1, one.2 + rest.2)

-- `.sum()`, which fits its word, and `.min().unwrap_or(0)`.
unfoldable pub total : List ℕ → ℕ
total [] = 0
total (n ∷ ns) = n + total ns

unfoldable pub minimum : List ℕ → ℕ
minimum [] = 0
minimum (n ∷ []) = n
minimum (n ∷ m ∷ ms) = min n (minimum (m ∷ ms))

unfoldable pub evaluate_candidate :
    {E : Type 0}
    → DbarFile
    → List ℕ
    → PrefixSums
    → List TrackWindow
    → ℤ
    → Outcome E (OffsetCandidate × List TrackVerification)
unfolding evaluate_windows total minimum
evaluate_candidate dbar disc prefix windows shift = do
  results ← evaluate_windows dbar disc prefix windows shift
  ok (
    record {
      sample_shift = shift;
      full_matches = length results.1;
      minimum_confidence = minimum results.1;
      total_confidence = total results.1;
      frame_450_matches = results.2;
    },
    results.0,
  )
