-- ===== src/Identify/Consensus/Merge.antt =====
-- `merge`: the cohort of the winning identifiers, and the vote on each field.
use phono_junk.Common.{
  ℕ, Bool, true, ◌&&◌, Option, none, some, List, [], ◌∷◌, map, ◌==◌, if◌then◌else◌,
}
use phono_junk.Common.Hex.{Text}
use phono_junk.Common.Text.{text_eq}
use phono_junk.Identify.{AlbumMeta, ReleaseMeta, TrackMeta, ProviderResult}
use phono_junk.Identify.Consensus.{
  DisagreementEntity, album, release, track, Field, album_mbid, release_mbid, album_title,
  album_artist_credit, album_year, release_country, release_date, release_label,
  release_catalog_number, release_barcode, release_language, release_script, track_title,
  track_artist_credit, track_length_frames, track_isrc, track_mbid, RawDisagreement, MergedDisc,
}
use phono_junk.Identify.Consensus.Vote.{Vote, Recorded, ◌>>=◌, return, merge_opt}

-- `x.as_ref().and_then(f)`
abbrev pub and_then : {A B : Type 0} → Option A → (A → Option B) → Option B
and_then none f = none
and_then (some a) f = f a

-- `filter`
abbrev pub keep : {A : Type 0} → (A → Bool) → List A → List A
keep p [] = []
keep p (x ∷ xs) = if p x then x ∷ keep p xs else keep p xs

-- The match on the winner and on what a provider gives.
unfoldable pub agrees : Option Text → Option Text → Bool
agrees (some w) (some x) = text_eq w x
agrees none given = true
agrees (some w) none = true

module _ {Value : Type 0} where
  abbrev pub album_mbid_of : ProviderResult Value → Option Text
  album_mbid_of r = and_then r.album λ a. a.mbid

  abbrev pub release_mbid_of : ProviderResult Value → Option Text
  release_mbid_of r = and_then r.release λ a. a.mbid

  unfoldable pub in_cohort : Option Text → Option Text → ProviderResult Value → Bool
  in_cohort album_winner release_winner r =
      agrees album_winner (album_mbid_of r) && agrees release_winner (release_mbid_of r)

  unfoldable pub cohort_of :
      Option Text × Option Text → List (ProviderResult Value) → List (ProviderResult Value)
  unfolding in_cohort
  cohort_of (album_winner, release_winner) results =
      keep (λ r. in_cohort album_winner release_winner r) results

-- `if album.title.as_deref() == Some("") { album.title = None; }`
unfoldable pub drop_empty : Option Text → Option Text
drop_empty (some []) = none
drop_empty (some (c ∷ cs)) = some (c ∷ cs)
drop_empty none = none

module _ {Value : Type 0} (text_value : Text → Value) (number_value : ℕ → Value)
    (text_iteration : List (Vote Text) → List (Vote Text))
    (number_iteration : List (Vote ℕ) → List (Vote ℕ)) where
  abbrev pub merge_text :
      DisagreementEntity → Field → List (Text × Option Text) → Recorded Value (Option Text)
  merge_text entity field values = merge_opt text_eq text_value entity field text_iteration values

  abbrev pub merge_number :
      DisagreementEntity → Field → List (Text × Option ℕ) → Recorded Value (Option ℕ)
  merge_number entity field values =
      merge_opt (λ m n. m == n) number_value entity field number_iteration values

  -- `results.iter().map(|r| (r.provider.clone(), extract(r)))`
  abbrev pub values_of :
      {T : Type 0}
      → (ProviderResult Value → Option T)
      → List (ProviderResult Value)
      → List (Text × Option T)
  values_of extract results = map (λ r. (r.provider, extract r)) results

  unfoldable pub pick_mbid :
      (ProviderResult Value → Option Text)
      → DisagreementEntity
      → Field
      → List (ProviderResult Value)
      → Recorded Value (Option Text)
  pick_mbid extract entity field results = merge_text entity field (values_of extract results)

  unfoldable pub merge_album : Option Text → List (ProviderResult Value) → Recorded Value AlbumMeta
  unfolding drop_empty
  merge_album mbid cohort = do
    title ← merge_text album album_title (values_of (λ r. and_then r.album λ a. a.title) cohort)
    artist ←
        merge_text album album_artist_credit
          (values_of (λ r. and_then r.album λ a. a.artist_credit) cohort)
    year ← merge_number album album_year (values_of (λ r. and_then r.album λ a. a.year) cohort)
    return (record { title = drop_empty title; artist_credit = artist; year = year; mbid = mbid })

  -- `merge_opt` on a field of the releases
  abbrev pub merge_release_field :
      Field
      → (ReleaseMeta → Option Text)
      → List (ProviderResult Value)
      → Recorded Value (Option Text)
  merge_release_field field f cohort =
      merge_text release field (values_of (λ r. and_then r.release f) cohort)

  unfoldable pub merge_release :
      Option Text → List (ProviderResult Value) → Recorded Value ReleaseMeta
  merge_release mbid cohort = do
    country ← merge_release_field release_country (λ r. r.country) cohort
    date ← merge_release_field release_date (λ r. r.date) cohort
    label ← merge_release_field release_label (λ r. r.label) cohort
    catalog_number ← merge_release_field release_catalog_number (λ r. r.catalog_number) cohort
    barcode ← merge_release_field release_barcode (λ r. r.barcode) cohort
    language ← merge_release_field release_language (λ r. r.language) cohort
    script ← merge_release_field release_script (λ r. r.script) cohort
    return (record {
      country = country;
      date = date;
      label = label;
      catalog_number = catalog_number;
      barcode = barcode;
      mbid = mbid;
      language = language;
      script = script;
    })

  -- `entries.iter().map(|(p, t)| (p.clone(), f(t)))`
  abbrev pub track_values :
      {T : Type 0} → (TrackMeta → Option T) → List (Text × TrackMeta) → List (Text × Option T)
  track_values f entries = map (λ e. (e.0, f e.1)) entries

  unfoldable pub merge_position : ℕ → List (Text × TrackMeta) → Recorded Value TrackMeta
  merge_position pos entries = do
    title ← merge_text (track pos) track_title (track_values (λ t. t.title) entries)
    artist ←
        merge_text (track pos) track_artist_credit (track_values (λ t. t.artist_credit) entries)
    length ←
        merge_number (track pos) track_length_frames (track_values (λ t. t.length_frames) entries)
    isrc ← merge_text (track pos) track_isrc (track_values (λ t. t.isrc) entries)
    mbid ← merge_text (track pos) track_mbid (track_values (λ t. t.mbid) entries)
    return (record {
      position = pos;
      title = title;
      artist_credit = artist;
      length_frames = length;
      isrc = isrc;
      mbid = mbid;
    })

  -- The second part of `merge_tracks`.
  unfoldable pub merge_positions :
      List (ℕ × List (Text × TrackMeta)) → Recorded Value (List TrackMeta)
  unfolding merge_position
  merge_positions [] = return []
  merge_positions ((pos, entries) ∷ groups) = do
    t ← merge_position pos entries
    ts ← merge_positions groups
    return (t ∷ ts)

  -- The two identifiers, with the disagreements on them.
  unfoldable pub pick_mbids :
      List (ProviderResult Value) → Recorded Value (Option Text × Option Text)
  unfolding pick_mbid
  pick_mbids results = do
    album_winner ← pick_mbid album_mbid_of album album_mbid results
    release_winner ← pick_mbid release_mbid_of release release_mbid results
    return (album_winner, release_winner)

  -- The rest of `merge` for a cohort and its tracks by position.
  unfoldable pub merge_fields :
      Option Text × Option Text
      → List (ProviderResult Value)
      → List (ℕ × List (Text × TrackMeta))
      → List (RawDisagreement Value)
      → MergedDisc Value
  unfolding merge_album merge_release merge_positions
  merge_fields (album_winner, release_winner) cohort groups sink =
      let albums : AlbumMeta × List (RawDisagreement Value) =
        merge_album album_winner cohort sink in
      let releases : ReleaseMeta × List (RawDisagreement Value) =
        merge_release release_winner cohort albums.1 in
      let tracks : List TrackMeta × List (RawDisagreement Value) =
        merge_positions groups releases.1 in
      record {
        album = albums.0;
        release = releases.0;
        tracks = tracks.0;
        disagreements = tracks.1;
        sources = map (λ r. r.provider) cohort;
      }
