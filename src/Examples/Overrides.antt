-- ===== src/Examples/Overrides.antt =====
-- Concrete overrides.
use phono_junk.Common.{ℕ, ◌≡◌, ◌<◌, ◌≤◌, ◌⊎◌, ◌++◌, refl, none, some, List, [], ◌∷◌, arith}
use phono_junk.Common.Int.{pos}
use phono_junk.Common.Outcome.{ok, err}
use phono_junk.Common.Text.{codes}
use phono_junk.Common.Decimal.{decimal, parse_unsigned}
use phono_junk.Catalog.{Album, Release, Disc, Track}
use phono_junk.Db.Overrides.{
  Segment, field, indexed, parse_sub_path, render_path, split_dots, parse_all, parse_segment,
  parse_indexed, find, rfind, slice, segment_display, index_out_of_range, target_mismatch,
  unknown_field, unknown_segment, album_name, release_name, disc_name, track_name,
}
use phono_junk.Db.Overrides.Apply.{
  OverrideTarget, on_album, on_release, on_disc, on_track, apply_override, apply_disc,
  apply_nth_track,
}
use phono_junk.Db.Overrides.Fields.{apply_flat_track, track_field, set_track}
use phono_junk.Db.Overrides.RoundTrip.{parse_sub_path-render_path}
use phono_junk.Db.Overrides.Refused.{
  Named, album_names, release_names, disc_names, track_names, apply_override_refused,
}
use phono_junk.Db.Overrides.Frame.{OneChanged, apply_override_track}

abbrev nested : List Segment
nested = indexed (b't' ∷ []) 12 ∷ field (b'x' ∷ []) ∷ []

parse_sub_path-render_path_example : parse_sub_path (some (render_path nested)) ≡ ok nested
parse_sub_path-render_path_example = parse_sub_path-render_path nested (
  (omega arith, (omega arith, tt), (omega arith, tt), omega arith),
  ((omega arith, (omega arith, tt), (omega arith, tt), (omega arith, tt)), tt),
)

shown : parse_sub_path (some (codes "t[12].x")) ≡ ok nested
unfolding parse_sub_path split_dots parse_all parse_segment parse_indexed find rfind slice
    parse_unsigned
shown = refl

abbrev blank : ℕ → Track
blank n = record {
  id = pos n;
  disc_id = pos 1;
  position = n;
  title = none;
  artist_credit = none;
  length_frames = none;
  isrc = none;
  mbid = none;
  recording_mbid = none;
}

abbrev disc : Disc
disc = record {
  id = pos 1;
  release_id = pos 1;
  disc_number = 1;
  format = codes "CD";
  toc = none;
  mb_discid = none;
  cddb_id = none;
  ar_discid1 = none;
  ar_discid2 = none;
  mcn = none;
}

abbrev target : OverrideTarget
target = on_disc disc (blank 1 ∷ blank 2 ∷ [])

abbrev second : List Segment
second = indexed (codes "track") 2 ∷ []

abbrev renamed : OverrideTarget
renamed = on_disc disc (blank 1 ∷ record (blank 2) { title = some (codes "X") } ∷ [])

renames : apply_override target second (codes "title") (codes "X") ≡ ok renamed
unfolding apply_override apply_disc apply_nth_track apply_flat_track track_field set_track
renames = refl

abbrev album : Album
album = record {
  id = pos 1;
  title = codes "A";
  sort_title = none;
  artist_credit = none;
  year = none;
  mbid = none;
  primary_type = none;
  secondary_types = [];
  first_release_date = none;
}

abbrev release : Release
release = record {
  id = pos 1;
  album_id = pos 1;
  country = some (codes "DE");
  date = none;
  label = none;
  catalog_number = none;
  barcode = none;
  mbid = none;
  status = none;
  language = none;
  script = none;
}

apply_override_refused_example :
    (apply_override (on_album album) second (codes "year") (codes "X")
      ≡ err (target_mismatch album_name (render_path second)))
    × (apply_override (on_release release) second (codes "year") (codes "X")
        ≡ err (target_mismatch release_name (render_path second)))
    × (apply_override (on_track (blank 1)) second (codes "year") (codes "X")
        ≡ err (target_mismatch track_name (render_path second)))
    × (Named (codes "year") album_names
        ⊎ (apply_override (on_album album) [] (codes "year") (codes "X")
            ≡ err (unknown_field album_name (codes "year"))))
    × (Named (codes "year") release_names
        ⊎ (apply_override (on_release release) [] (codes "year") (codes "X")
            ≡ err (unknown_field release_name (codes "year"))))
    × (Named (codes "year") disc_names
        ⊎ (apply_override target [] (codes "year") (codes "X")
            ≡ err (unknown_field disc_name (codes "year"))))
    × (Named (codes "year") track_names
        ⊎ (apply_override (on_track (blank 1)) [] (codes "year") (codes "X")
            ≡ err (unknown_field track_name (codes "year"))))
    × (apply_override target (field (codes "side") ∷ []) (codes "year") (codes "X")
        ≡ err (unknown_segment disc_name (codes "side")))
    × ((codes "side" ≡ codes "track")
        ⊎ (apply_override target (indexed (codes "side") 3 ∷ []) (codes "year") (codes "X")
            ≡ err (unknown_segment disc_name (codes "side" ++ b'[' ∷ (decimal 3 ++ b']' ∷ [])))))
    × (((0 < 3) × (3 ≤ 2))
        ⊎ (apply_override target (indexed (codes "track") 3 ∷ []) (codes "year") (codes "X")
            ≡ err (index_out_of_range (codes "track[" ++ decimal 3 ++ b']' ∷ []) 3 2)))
apply_override_refused_example =
    apply_override_refused album release disc (blank 1 ∷ blank 2 ∷ []) (blank 1)
      (indexed (codes "track") 2) [] (codes "year") (codes "X") (codes "side") 3

apply_override_track_example :
    (changed : List Track) × (renamed ≡ on_disc disc changed)
    × OneChanged [] (codes "title") (codes "X") 2 (blank 1 ∷ blank 2 ∷ []) changed
apply_override_track_example =
    apply_override_track disc (blank 1 ∷ blank 2 ∷ []) 2 [] (codes "title") (codes "X") renamed
      renames

past_the_end :
    apply_override target (indexed (codes "track") 3 ∷ []) (codes "title") (codes "X")
    ≡ err (index_out_of_range (codes "track[3]") 3 2)
unfolding apply_override apply_disc apply_nth_track segment_display decimal
past_the_end = refl
