-- ===== src/Examples/AccurateRip.antt =====
-- Concrete tracks and dBAR files for the theorems on phono-junk-accuraterip.
use phono_junk.Common.{
  ℕ, ◌≡◌, ◌↔◌, inl, inr, zero, suc, refl, false, List, [], ◌∷◌, ◌++◌, map, All, arith, some,
}
use phono_junk.Common.Int.{pos}
use phono_junk.Common.Outcome.{ok, err}
use phono_junk.Toc.{wrong_sample_count, junk}
use phono_junk.AccurateRip.Crc.{
  TrackCrc, middle, last, track_crc_samples, track_crc_streaming, skip_bounds,
}
use phono_junk.AccurateRip.Crc.Samples.{window_crc, track_crc_samples-eq}
use phono_junk.AccurateRip.Crc.Errors.{track_crc_streaming_errors}
use phono_junk.AccurateRip.Crc.Streaming.{AreSectors, all_samples, track_crc_streaming-eq-samples}
use phono_junk.AccurateRip.Error.{AccurateRipError}
use phono_junk.AccurateRip.Dbar.{
  ExpectedChecksum, DbarResponse, DbarFile, parse, validate_request, entries_for_track,
}
use phono_junk.AccurateRip.Dbar.Encode.{encode, IsFile}
use phono_junk.AccurateRip.Dbar.Complete.{parse-ok_iff}
use phono_junk.AccurateRip.Dbar.Requests.{
  Requested, track_entries, validate_request_iff, entries_for_track-eq,
}
use phono_junk.AccurateRip.Verify.{
  CrcMatch, ChecksumVersion, v1, v2, TrackVerification, verified, verify_track, best_match,
  max_by_confidence, best_confidence,
}
use phono_junk.AccurateRip.Verify.Best.{best_match_tie, best_match-confidence, confidence_of}
use phono_junk.AccurateRip.Verify.Status.{StatusOf, verify_track_status}

repeat : ℕ → ℕ → List ℕ
repeat zero x = []
repeat (suc n) x = x ∷ repeat n x

abbrev sectors : List (List ℕ)
sectors = repeat 588 4000000000 ∷ repeat 588 3 ∷ []

sectors-AreSectors : AreSectors sectors
unfolding repeat
sectors-AreSectors = (refl, (refl, tt))

track_crc_samples-eq_example :
    track_crc_samples (4000000000 ∷ 7 ∷ 9 ∷ []) middle
    ≡ ok (window_crc (skip_bounds middle 3) (4000000000 ∷ 7 ∷ 9 ∷ []))
track_crc_samples-eq_example = track_crc_samples-eq (4000000000 ∷ 7 ∷ 9 ∷ []) middle (omega arith)

track_crc_streaming-eq-samples_example :
    track_crc_streaming (map inr sectors) 1176 middle
    ≡ track_crc_samples (all_samples sectors) middle
track_crc_streaming-eq-samples_example =
    track_crc_streaming-eq-samples sectors middle sectors-AreSectors (omega arith)

track_crc_streaming_errors_example :
    (track_crc_streaming (map inr sectors) 588 last ≡ err (wrong_sample_count 1176 588))
    × (track_crc_streaming (map inr sectors ++ inl 5 ∷ []) 1176 last ≡ err (junk 5))
track_crc_streaming_errors_example =
    track_crc_streaming_errors sectors 5 [] 588 1176 last sectors-AreSectors (omega arith)
      (omega arith)

-- Two pressings of a disc with two tracks.
abbrev entry : ℕ → ℕ → ExpectedChecksum
entry confidence checksum = record {
  confidence = confidence;
  checksum = checksum;
  checksum_450 = 77;
}

abbrev pressing : List ExpectedChecksum → DbarResponse
pressing tracks = record {
  track_count = 2;
  ar_id1 = 59700;
  ar_id2 = 159251;
  cddb_id = 270013186;
  tracks = tracks;
}

abbrev pub file : DbarFile
file = record {
  responses =
      pressing (entry 3 1000 ∷ entry 4 2000 ∷ [])
      ∷ pressing (entry 9 1001 ∷ entry 8 2001 ∷ [])
      ∷ [];
}

file-IsFile : IsFile file
file-IsFile = (
  record {
    count = refl;
    count_fits = omega arith;
    id1_fits = omega arith;
    id2_fits = omega arith;
    cddb_fits = omega arith;
    entries =
        ((omega arith, omega arith, omega arith), ((omega arith, omega arith, omega arith), tt));
  },
  (
    record {
      count = refl;
      count_fits = omega arith;
      id1_fits = omega arith;
      id2_fits = omega arith;
      cddb_fits = omega arith;
      entries =
          ((omega arith, omega arith, omega arith), ((omega arith, omega arith, omega arith), tt));
    },
    tt,
  ),
)

abbrev small_file : DbarFile
small_file = record {
  responses = record { track_count = 0; ar_id1 = 1; ar_id2 = 256; cddb_id = 2; tracks = [] } ∷ [];
}

abbrev small_bytes : List ℕ
small_bytes = 0 ∷ 1 ∷ 0 ∷ 0 ∷ 0 ∷ 0 ∷ 1 ∷ 0 ∷ 0 ∷ 2 ∷ 0 ∷ 0 ∷ 0 ∷ []

parse-ok_iff_example :
    (parse small_bytes ≡ ok small_file) ↔ (IsFile small_file × (encode small_file ≡ small_bytes))
parse-ok_iff_example = parse-ok_iff small_bytes small_file (
  omega arith,
  (
    omega arith,
    (
      omega arith,
      (
        omega arith,
        (
          omega arith,
          (
            omega arith,
            (
              omega arith,
              (
                omega arith,
                (omega arith, (omega arith, (omega arith, (omega arith, (omega arith, tt))))),
              ),
            ),
          ),
        ),
      ),
    ),
  ),
)

validate_request_iff_example :
    (validate_request file 2 59700 159251 270013186 ≡ ok tt)
    ↔ All (Requested 2 59700 159251 270013186) file.responses
validate_request_iff_example = validate_request_iff file 2 59700 159251 270013186

entries_for_track-eq_example :
    entries_for_track {E = AccurateRipError} file 2
    ≡ ok ((0, entry 4 2000) ∷ (1, entry 8 2001) ∷ [])
entries_for_track-eq_example = entries_for_track-eq file 2 file-IsFile

abbrev computed_crc : TrackCrc
computed_crc = record { v1 = 1001; v2 = 5 }

verify_track_status_example :
    (t : TrackVerification) × (verify_track {E = AccurateRipError} file 1 computed_crc ≡ ok t)
    × StatusOf computed_crc (track_entries 0 file.responses 1) t.status
    × (t.position ≡ 1)
    × (t.computed ≡ computed_crc)
    × (t.sample_shift ≡ some (pos 0))
verify_track_status_example = verify_track_status file 1 computed_crc file-IsFile

-- A match of each version, both of confidence 4.
abbrev a_match : ℕ → ChecksumVersion → CrcMatch
a_match checksum version = record {
  pressing = 0;
  confidence = 4;
  checksum = checksum;
  version = version;
}

abbrev tied : TrackVerification
tied = record {
  position = 1;
  computed = computed_crc;
  v1_matches = a_match 1001 v1 ∷ [];
  v2_matches = a_match 5 v2 ∷ [];
  sample_shift = some (pos 0);
  frame_450_support = false;
  status = verified;
}

best_match_tie_example : best_match tied ≡ some (a_match 1001 v1)
unfolding max_by_confidence
best_match_tie_example =
    best_match_tie tied (a_match 5 v2) (a_match 1001 v1) refl refl (omega arith)

best_match-confidence_example : confidence_of (best_match tied) ≡ best_confidence tied
best_match-confidence_example = best_match-confidence tied
