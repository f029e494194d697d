-- ===== src/Db/Overrides/Fields.antt =====
-- The flat appliers of phono-junk-db/src/overrides.rs. A function on `&mut` returns the new value; the
-- `match` on a field's name is made in two steps, from the name to a constructor and from that to
-- the assignment.
use phono_junk.Common.{
  ℕ, ◌-◌, ◌^◌, Option, none, some, true, false, List, [], ◌∷◌, is_empty, if◌then◌else◌,
}
use phono_junk.Common.Outcome.{Outcome, ok, ◌>>=◌, ◌>>◌, ok_or, fail_if}
use phono_junk.Common.Hex.{Text}
use phono_junk.Common.Text.{codes, text_eq}
use phono_junk.Common.Decimal.{parse_unsigned}
use phono_junk.Catalog.{Album, Release, Disc, Track}
use phono_junk.Db.Overrides.{
  TargetName, album_name, release_name, disc_name, track_name, Expected, expected_u16, expected_u64,
  OverrideError, unknown_field, value_parse, target_mismatch, Segment, render_path,
}

abbrev pub nullable : Text → Option Text
nullable [] = none
nullable (c ∷ cs) = some (c ∷ cs)

-- `parse_opt_u16` and `parse_opt_u64`
unfoldable pub parse_opt : ℕ → Expected → Text → Text → Outcome OverrideError (Option ℕ)
parse_opt largest expected name [] = ok none
parse_opt largest expected name (c ∷ cs) = do
  n ← ok_or (parse_unsigned largest (c ∷ cs)) (value_parse name expected (c ∷ cs))
  ok (some n)

unfoldable pub reject_nonempty : List Segment → TargetName → Outcome OverrideError (Unit {0})
reject_nonempty path target =
    fail_if (if is_empty path then false else true) (target_mismatch target (render_path path))

pub data AlbumField : Type 0 where
  album_title album_sort_title album_artist_credit album_year album_mbid : AlbumField
  album_primary_type album_first_release_date : AlbumField

unfoldable pub album_field : Text → Option AlbumField
unfolding text_eq
album_field f =
    if text_eq f (codes "title")
    then some album_title
    else if text_eq f (codes "sort_title")
    then some album_sort_title
    else if text_eq f (codes "artist_credit")
    then some album_artist_credit
    else if text_eq f (codes "year")
    then some album_year
    else if text_eq f (codes "mbid")
    then some album_mbid
    else if text_eq f (codes "primary_type")
    then some album_primary_type
    else if text_eq f (codes "first_release_date")
    then some album_first_release_date
    else none

unfoldable pub set_album : AlbumField → Text → Text → Album → Outcome OverrideError Album
unfolding parse_opt
set_album album_title name value a = ok (record a { title = value })
set_album album_sort_title name value a = ok (record a { sort_title = nullable value })
set_album album_artist_credit name value a = ok (record a { artist_credit = nullable value })
set_album album_year name value a = do
  year ← parse_opt (2 ^ 16 - 1) expected_u16 name value
  ok (record a { year = year })
set_album album_mbid name value a = ok (record a { mbid = nullable value })
set_album album_primary_type name value a = ok (record a { primary_type = nullable value })
set_album album_first_release_date name value a =
    ok (record a { first_release_date = nullable value })

unfoldable pub apply_flat_album : Album → List Segment → Text → Text → Outcome OverrideError Album
unfolding reject_nonempty album_field set_album
apply_flat_album a path name value = do
  reject_nonempty path album_name
  f ← ok_or (album_field name) (unknown_field album_name name)
  set_album f name value a

pub data ReleaseField : Type 0 where
  release_country release_date release_label release_catalog_number release_barcode : ReleaseField
  release_mbid release_status release_language release_script : ReleaseField

unfoldable pub release_field : Text → Option ReleaseField
unfolding text_eq
release_field f =
    if text_eq f (codes "country")
    then some release_country
    else if text_eq f (codes "date")
    then some release_date
    else if text_eq f (codes "label")
    then some release_label
    else if text_eq f (codes "catalog_number")
    then some release_catalog_number
    else if text_eq f (codes "barcode")
    then some release_barcode
    else if text_eq f (codes "mbid")
    then some release_mbid
    else if text_eq f (codes "status")
    then some release_status
    else if text_eq f (codes "language")
    then some release_language
    else if text_eq f (codes "script")
    then some release_script
    else none

unfoldable pub set_release : ReleaseField → Text → Release → Release
set_release release_country value r = record r { country = nullable value }
set_release release_date value r = record r { date = nullable value }
set_release release_label value r = record r { label = nullable value }
set_release release_catalog_number value r = record r { catalog_number = nullable value }
set_release release_barcode value r = record r { barcode = nullable value }
set_release release_mbid value r = record r { mbid = nullable value }
set_release release_status value r = record r { status = nullable value }
set_release release_language value r = record r { language = nullable value }
set_release release_script value r = record r { script = nullable value }

unfoldable pub apply_flat_release :
    Release → List Segment → Text → Text → Outcome OverrideError Release
unfolding reject_nonempty release_field set_release
apply_flat_release r path name value = do
  reject_nonempty path release_name
  f ← ok_or (release_field name) (unknown_field release_name name)
  ok (set_release f value r)

pub data DiscField : Type 0 where
  disc_format disc_mb_discid disc_cddb_id disc_ar_discid1 disc_ar_discid2 : DiscField

unfoldable pub disc_field : Text → Option DiscField
unfolding text_eq
disc_field f =
    if text_eq f (codes "format")
    then some disc_format
    else if text_eq f (codes "mb_discid")
    then some disc_mb_discid
    else if text_eq f (codes "cddb_id")
    then some disc_cddb_id
    else if text_eq f (codes "ar_discid1")
    then some disc_ar_discid1
    else if text_eq f (codes "ar_discid2")
    then some disc_ar_discid2
    else none

unfoldable pub set_disc : DiscField → Text → Disc → Disc
set_disc disc_format value d = record d { format = value }
set_disc disc_mb_discid value d = record d { mb_discid = nullable value }
set_disc disc_cddb_id value d = record d { cddb_id = nullable value }
set_disc disc_ar_discid1 value d = record d { ar_discid1 = nullable value }
set_disc disc_ar_discid2 value d = record d { ar_discid2 = nullable value }

unfoldable pub apply_flat_disc : Disc → Text → Text → Outcome OverrideError Disc
unfolding disc_field set_disc
apply_flat_disc d name value = do
  f ← ok_or (disc_field name) (unknown_field disc_name name)
  ok (set_disc f value d)

pub data TrackField : Type 0 where
  track_title track_artist_credit track_length_frames track_isrc track_mbid : TrackField
  track_recording_mbid : TrackField

unfoldable pub track_field : Text → Option TrackField
unfolding text_eq
track_field f =
    if text_eq f (codes "title")
    then some track_title
    else if text_eq f (codes "artist_credit")
    then some track_artist_credit
    else if text_eq f (codes "length_frames")
    then some track_length_frames
    else if text_eq f (codes "isrc")
    then some track_isrc
    else if text_eq f (codes "mbid")
    then some track_mbid
    else if text_eq f (codes "recording_mbid")
    then some track_recording_mbid
    else none

unfoldable pub set_track : TrackField → Text → Text → Track → Outcome OverrideError Track
unfolding parse_opt
set_track track_title name value t = ok (record t { title = nullable value })
set_track track_artist_credit name value t = ok (record t { artist_credit = nullable value })
set_track track_length_frames name value t = do
  frames ← parse_opt (2 ^ 64 - 1) expected_u64 name value
  ok (record t { length_frames = frames })
set_track track_isrc name value t = ok (record t { isrc = nullable value })
set_track track_mbid name value t = ok (record t { mbid = nullable value })
set_track track_recording_mbid name value t = ok (record t { recording_mbid = nullable value })

unfoldable pub apply_flat_track : Track → List Segment → Text → Text → Outcome OverrideError Track
unfolding reject_nonempty track_field set_track
apply_flat_track t path name value = do
  reject_nonempty path track_name
  f ← ok_or (track_field name) (unknown_field track_name name)
  set_track f name value t
