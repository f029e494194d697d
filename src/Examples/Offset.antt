-- ===== src/Examples/Offset.antt =====
-- Concrete streams and candidates for the theorems on the search for a sample shift.
use phono_junk.Common.{ℕ, ◌+◌, ◌%◌, ◌^◌, ◌≡◌, refl, some, List, [], ◌∷◌, ◌++◌, arith}
use phono_junk.Common.Outcome.{ok}
use phono_junk.Common.Int.{ℤ, pos, negsuc}
use phono_junk.Toc.{AudioError}
use phono_junk.AccurateRip.Crc.{TrackCrc, middle, track_crc_samples}
use phono_junk.AccurateRip.Offset.{TrackWindow, prefix_sums, weighted_range, shifted_v1, shifted_v2}
use phono_junk.AccurateRip.Offset.Shifted.{shifted_checksums-eq}
use phono_junk.AccurateRip.Offset.Prefix.{weighted_range-eq}
use phono_junk.AccurateRip.Offset.Search.{disc_verified}
use phono_junk.AccurateRip.Offset.Choice.{Evaluated, decide, rank_ltb, rank_eq}
use phono_junk.AccurateRip.Offset.Best.{decide_unique}

abbrev stream : List ℕ
stream = 4000000000 ∷ 7 ∷ 4000000000 ∷ 9 ∷ []

weighted_range-eq_example :
    weighted_range {E = AudioError} (prefix_sums stream) 1 (1 + 2) 5 ≡ ok (24000000035 % 2 ^ 32)
weighted_range-eq_example = weighted_range-eq stream 1 2 5 (omega arith) (omega arith) (omega arith)

abbrev candidate : ℤ → ℕ → ℕ → Evaluated
candidate shift full confidence = (
  record {
    sample_shift = shift;
    full_matches = full;
    minimum_confidence = confidence;
    total_confidence = confidence;
    frame_450_matches = 0;
  },
  [],
)

decide_unique_example :
    decide
      ((candidate (negsuc 5) 1 3 ∷ []) ++ candidate (pos 12) 2 3 ∷ candidate (pos 30) 2 1 ∷ [])
      []
    ≡ record {
      status = disc_verified;
      chosen_sample_shift = some (pos 12);
      tracks = [];
      ambiguous_offsets = [];
    }
unfolding rank_ltb rank_eq
decide_unique_example =
    decide_unique (candidate (negsuc 5) 1 3 ∷ []) (candidate (pos 12) 2 3)
      (candidate (pos 30) 2 1 ∷ []) [] (refl, tt) (refl, tt) refl

abbrev window : TrackWindow
window = record { position = 2; disc_position = middle; start = 2; len = 2 }

shifted_checksums-eq_example :
    (crc : TrackCrc) × (track_crc_samples (7 ∷ 4000000000 ∷ []) middle ≡ ok crc)
    × (shifted_v1 {E = AudioError} (prefix_sums stream) window (negsuc 0) ≡ ok crc.v1)
    × (shifted_v2 stream window (negsuc 0) ≡ crc.v2)
shifted_checksums-eq_example =
    shifted_checksums-eq (4000000000 ∷ []) (7 ∷ 4000000000 ∷ []) (9 ∷ []) window (negsuc 0)
      (omega arith) refl (omega arith)
