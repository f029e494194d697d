-- ===== src/AccurateRip/Verify.antt =====
-- phono-junk-accuraterip/src/verify.rs: computed checksums against the entries of a dBAR file.
pub mod Status
pub mod Best
use mathlib.Core.Option
use phono_junk.Common.{
  is_empty, ℕ, ◌+◌, ◌≡◌, max, Bool, true, false, ◌&&◌, ◌||◌, Option, none, some,
}
use phono_junk.Common.{List, [], ◌∷◌, ◌++◌, map, ltb, leb, ◌==◌, if◌then◌else◌}
use phono_junk.Common.Outcome.{Outcome, ok, ◌>>=◌}
use phono_junk.Common.Int.{ℤ, pos}
use phono_junk.AccurateRip.Crc.{TrackCrc}
use phono_junk.AccurateRip.Dbar.{ExpectedChecksum, DbarFile, entries_for_track}

pub data ChecksumVersion : Type 0 where
  v1 v2 both : ChecksumVersion

pub data TrackVerificationStatus : Type 0 where
  verified mismatched no_data ambiguous : TrackVerificationStatus

pub record CrcMatch : Type 0 where
  pub pressing : ℕ
  pub confidence : ℕ
  pub checksum : ℕ
  pub version : ChecksumVersion

pub record TrackVerification : Type 0 where
  pub position : ℕ
  pub computed : TrackCrc
  pub v1_matches : List CrcMatch
  pub v2_matches : List CrcMatch
  pub sample_shift : Option ℤ
  pub frame_450_support : Bool
  pub status : TrackVerificationStatus

-- `.max()` of confidences
unfoldable pub max_confidence : List CrcMatch → Option ℕ
max_confidence [] = none
max_confidence (m ∷ ms) = elim (max_confidence ms) [
  | none ↦ some m.confidence
  | some c ↦ some (max m.confidence c)
]

unfoldable pub best_confidence : TrackVerification → Option ℕ
unfolding max_confidence
best_confidence t = max_confidence (t.v1_matches ++ t.v2_matches)

abbrev pub is_verified : TrackVerification → Bool
is_verified t = elim t.status [ verified ↦ true | _ ↦ false ]

-- `max_by_key`: of several maximal elements the last one is returned.
unfoldable pub max_by_confidence : List CrcMatch → Option CrcMatch
max_by_confidence [] = none
max_by_confidence (m ∷ ms) = elim (max_by_confidence ms) [
  | none ↦ some m
  | some later ↦ some (if leb m.confidence later.confidence then later else m)
]

unfoldable pub best_match : TrackVerification → Option CrcMatch
unfolding max_by_confidence
best_match t = max_by_confidence (t.v2_matches ++ t.v1_matches)

-- The texts of `status_string`, a constructor for each format.
pub data StatusText : Type 0 where
  no_data_text ambiguous_offset no_match : StatusText
  v2_confidence v1_confidence : ℕ → StatusText

-- `match (v1_best, v2_best)`
unfoldable pub best_text : Option ℕ → Option ℕ → StatusText
best_text v1_best (some c) = v2_confidence c
best_text (some c) none = v1_confidence c
best_text none none = no_match

unfoldable pub status_string : TrackVerification → StatusText
unfolding best_text max_confidence
status_string t = elim t.status [
  | no_data ↦ no_data_text
  | ambiguous ↦ ambiguous_offset
  | _ ↦ best_text (max_confidence t.v1_matches) (max_confidence t.v2_matches)
]

-- `if test { matches.push(…) }`, the match in front of those of the later entries.
unfoldable pub push_if :
    Bool → ChecksumVersion → ℕ → ExpectedChecksum → List CrcMatch → List CrcMatch
push_if true version pressing entry matches =
    record {
      pressing = pressing;
      confidence = entry.confidence;
      checksum = entry.checksum;
      version = version;
    }
    ∷ matches
push_if false version pressing entry matches = matches

-- The loop of `verify_track`: the matches of v1 and of v2.
unfoldable pub collect_matches :
    TrackCrc → List (ℕ × ExpectedChecksum) → List CrcMatch × List CrcMatch
unfolding push_if
collect_matches computed [] = ([], [])
collect_matches computed ((pressing, entry) ∷ entries) =
    let rest = collect_matches computed entries in
    let is_v2 : Bool = entry.checksum == computed.v2 in
    let is_v1 : Bool = entry.checksum == computed.v1 in
    (
      push_if is_v1 (if is_v2 then both else v1) pressing entry rest.0,
      push_if is_v2 (if is_v1 then both else v2) pressing entry rest.1,
    )

unfoldable pub track_status :
    List CrcMatch → List CrcMatch → List (ℕ × ExpectedChecksum) → TrackVerificationStatus
track_status v1_matches v2_matches entries =
    if is_empty v1_matches && is_empty v2_matches
    then (if is_empty entries then no_data else mismatched)
    else verified

unfoldable pub verify_track : {E : Type 0} → DbarFile → ℕ → TrackCrc → Outcome E TrackVerification
unfolding collect_matches track_status
verify_track dbar position computed = do
  entries ← entries_for_track dbar position
  let matches : List CrcMatch × List CrcMatch = collect_matches computed entries
  ok (record {
    position = position;
    computed = computed;
    v1_matches = matches.0;
    v2_matches = matches.1;
    sample_shift = some (pos 0);
    frame_450_support = false;
    status = track_status matches.0 matches.1 entries;
  })

unfoldable pub verify_disc :
    {E : Type 0} → DbarFile → List (ℕ × TrackCrc) → Outcome E (List TrackVerification)
verify_disc dbar [] = ok []
verify_disc dbar ((position, crc) ∷ crcs) = do
  track ← verify_track dbar position crc
  tracks ← verify_disc dbar crcs
  ok (track ∷ tracks)
