-- ===== src/Identify/Consensus/Disc.antt =====
-- `merge` and `merge_with_toc_fallback` as wholes.
use phono_junk.Common.{ℕ, Option, none, some, List, [], ◌∷◌, map}
use phono_junk.Common.Outcome.{Outcome, ok, ◌>>=◌}
use phono_junk.Common.Hex.{Text}
use phono_junk.Toc.{Toc, TrackSpan, iter_track_spans}
use phono_junk.Identify.{TrackMeta, ProviderResult}
use phono_junk.Identify.Consensus.{RawDisagreement, MergedDisc}
use phono_junk.Identify.Consensus.Vote.{Vote}
use phono_junk.Identify.Consensus.Groups.{grouped_tracks}
use phono_junk.Identify.Consensus.Merge.{pick_mbids, cohort_of, merge_fields}

-- The track that the fallback makes of a span.
abbrev pub stub_track : TrackSpan → TrackMeta
stub_track s = record {
  position = s.position;
  title = none;
  artist_credit = none;
  length_frames = some s.length_frames;
  isrc = none;
  mbid = none;
}

-- `if merged.tracks.is_empty() { … }`
unfoldable pub tracks_or_stubs : {E : Type 0} → List TrackMeta → Toc → Outcome E (List TrackMeta)
tracks_or_stubs (t ∷ ts) toc = ok (t ∷ ts)
tracks_or_stubs [] toc = do spans ← iter_track_spans toc; ok (map stub_track spans)

module _ {Value : Type 0} (text_value : Text → Value) (number_value : ℕ → Value)
    (text_iteration : List (Vote Text) → List (Vote Text))
    (number_iteration : List (Vote ℕ) → List (Vote ℕ)) where
  unfoldable pub merge : {E : Type 0} → List (ProviderResult Value) → Outcome E (MergedDisc Value)
  unfolding pick_mbids cohort_of merge_fields
  merge results = do
    let picked : (Option Text × Option Text) × List (RawDisagreement Value) =
        pick_mbids text_value number_value text_iteration number_iteration results []
    let cohort : List (ProviderResult Value) = cohort_of picked.0 results
    groups ← grouped_tracks cohort
    ok (
        merge_fields text_value number_value text_iteration number_iteration picked.0 cohort groups
          picked.1)

  unfoldable pub merge_with_toc_fallback :
      {E : Type 0} → List (ProviderResult Value) → Toc → Outcome E (MergedDisc Value)
  unfolding merge tracks_or_stubs
  merge_with_toc_fallback results toc = do
    merged ← merge results
    tracks ← tracks_or_stubs merged.tracks toc
    ok (record {
      album = merged.album;
      release = merged.release;
      tracks = tracks;
      disagreements = merged.disagreements;
      sources = merged.sources;
    })
