-- ===== src/Examples/Toc.antt =====
-- Concrete discs and layouts for the theorems on phono-junk-core and phono-junk-toc.
use phono_junk.Common.{
  ℕ, ◌+◌, ◌-◌, ◌*◌, ◌^◌, ◌≤◌, ◌≡◌, ◌↔◌, refl, Bool, true, false, not, List, [], ◌∷◌, ◌++◌, length,
  arith,
}
use phono_junk.Common.Outcome.{ok, err}
use phono_junk.Toc.{
  Toc, TrackSpan, AudioError, leading_data, track_count, track_length_frames, total_length_frames,
  iter_track_spans, IsValid,
}
use phono_junk.Toc.Spans.{iter_track_spans_lengths, length_at, sum_frames}
use phono_junk.Toc.Layout.{TrackLayout, layout_to_toc, validate_toc}
use phono_junk.Toc.Layout.Valid.{layout_to_toc-IsValid, validate_toc_iff}
use phono_junk.Toc.Layout.Shape.{
  run_toc, layout_to_toc-audio, layout_to_toc-cd_extra, layout_to_toc-mixed,
}
use phono_junk.Toc.DiscId.{digit_sum, accuraterip_numbers, cddb_number}
use phono_junk.Toc.DiscId.AccurateRip.{accuraterip_numbers-eq}
use phono_junk.Toc.DiscId.Cddb.{cddb_number-eq}
use phono_junk.Toc.DiscId.MusicBrainz.{IsDisc, discid_string-injective}

-- Two audio tracks.
abbrev two_tracks : Toc
two_tracks = record {
  first_track = 1;
  last_track = 2;
  leadout_sector = 40000;
  track_offsets = 150 ∷ 20000 ∷ [];
}

two_tracks-IsValid : IsValid two_tracks
two_tracks-IsValid = record {
  nonempty = omega arith;
  numbered = omega arith;
  ascending = (omega arith, tt);
  before_leadout = (omega arith, (omega arith, tt));
}

two_tracks-IsDisc : IsDisc two_tracks
two_tracks-IsDisc = record {
  from_one = omega arith;
  to_99 = omega arith;
  consecutive = refl;
  leadout_fits = omega arith;
  offsets_fit = (omega arith, (omega arith, tt));
}

iter_track_spans_lengths_example :
    (spans : List TrackSpan) × (iter_track_spans {E = AudioError} two_tracks ≡ ok spans)
    × (length spans ≡ track_count two_tracks)
    × ((idx : ℕ) → length_at spans idx ≡ track_length_frames two_tracks idx)
    × (sum_frames spans ≡ total_length_frames two_tracks)
iter_track_spans_lengths_example =
    iter_track_spans_lengths two_tracks two_tracks-IsValid (omega arith)

validate_toc_iff_example : (validate_toc two_tracks ≡ ok tt) ↔ IsValid two_tracks
validate_toc_iff_example = validate_toc_iff two_tracks

-- A layout entry: whether it is data, and its number, offset and length.
abbrev Entry : Type 0
Entry = Bool × ℕ × ℕ × ℕ

audio_kind : (t : Entry) → t.0 ≡ true → not t.0 ≡ false
audio_kind (true, number, offset, size) h = refl
audio_kind (false, number, offset, size) h = cc h

abbrev entries : TrackLayout Entry
entries = record {
  is_data = λ t. t.0;
  is_audiolike = λ t. not t.0;
  number = λ t. t.1;
  absolute_offset = λ t. t.2;
  length_sectors = λ t. t.3;
  data_not_audiolike = audio_kind;
}

abbrev track1 : Entry
track1 = (false, 1, 150, 19850)

abbrev track2 : Entry
track2 = (false, 2, 20000, 20000)

abbrev data3 : Entry
data3 = (true, 3, 51400, 9000)

run-IsValid :
    (leadout : ℕ)
    → 20000 ≤ leadout - 1
    → IsValid (run_toc entries track1 track2 leadout (track1 ∷ track2 ∷ []))
run-IsValid leadout h = record {
  nonempty = omega arith;
  numbered = omega arith;
  ascending = (omega arith, tt);
  before_leadout = (omega arith, (omega arith, tt));
}

layout_to_toc-audio_example : layout_to_toc entries (track1 ∷ track2 ∷ []) ≡ ok two_tracks
layout_to_toc-audio_example =
    layout_to_toc-audio entries (track1 ∷ track2 ∷ []) track1 track2 (refl, (refl, tt)) refl refl
      (omega arith) (run-IsValid 40000 (omega arith))

layout_to_toc-cd_extra_example :
    layout_to_toc entries ((track1 ∷ track2 ∷ []) ++ data3 ∷ []) ≡ ok two_tracks
layout_to_toc-cd_extra_example =
    layout_to_toc-cd_extra entries (track1 ∷ track2 ∷ []) data3 [] track1 track2 (refl, (refl, tt))
      (refl, tt) refl refl (omega arith) (run-IsValid 40000 (omega arith))

layout_to_toc-mixed_example :
    layout_to_toc entries ((track1 ∷ []) ++ data3 ∷ ([] ++ track2 ∷ [])) ≡ err leading_data
layout_to_toc-mixed_example =
    layout_to_toc-mixed entries (track1 ∷ []) data3 [] track2 [] (refl, tt) refl refl

layout_to_toc-IsValid_example : IsValid two_tracks
layout_to_toc-IsValid_example =
    layout_to_toc-IsValid entries (track1 ∷ track2 ∷ []) two_tracks layout_to_toc-audio_example

accuraterip_numbers-eq_example : accuraterip_numbers 150 two_tracks ≡ ok (59700, 159251)
accuraterip_numbers-eq_example =
    accuraterip_numbers-eq 150 two_tracks (omega arith) (omega arith) (omega arith) (omega arith)

cddb_number-eq_example : cddb_number two_tracks ≡ ok ((2 + 14) * 2 ^ 24 + 531 * 2 ^ 8 + 2)
unfolding digit_sum
cddb_number-eq_example =
    cddb_number-eq two_tracks two_tracks-IsValid (omega arith) (omega arith) (omega arith)

discid_string-injective_example : two_tracks ≡ two_tracks
discid_string-injective_example =
    discid_string-injective two_tracks two_tracks two_tracks-IsDisc two_tracks-IsDisc refl
