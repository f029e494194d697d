-- ===== src/Db/Overrides/Columns.antt =====
-- What an override of one field writes, and which overrides are refused.
use phono_junk.Common.{◌≡◌, Option, List, [], ◌∷◌, All}
use phono_junk.Common.Outcome.{ok}
use phono_junk.Common.Hex.{Text}
use phono_junk.Common.Text.{codes}
use phono_junk.Catalog.{Album, Release, Disc, Track}
use phono_junk.Db.Overrides.Apply.{
  OverrideTarget, on_album, on_release, on_disc, on_track, apply_override,
}

-- The optional texts of a row, each with the change of it.
abbrev pub Columns : Type 0 → Type 0
Columns Row = List (Text × (Option Text → Row → Row))

abbrev pub album_columns : Columns Album
album_columns =
    (codes "sort_title", λ v a. record a { sort_title = v })
    ∷ (codes "artist_credit", λ v a. record a { artist_credit = v })
    ∷ (codes "mbid", λ v a. record a { mbid = v })
    ∷ (codes "primary_type", λ v a. record a { primary_type = v })
    ∷ (codes "first_release_date", λ v a. record a { first_release_date = v })
    ∷ []

abbrev pub release_columns : Columns Release
release_columns =
    (codes "country", λ v r. record r { country = v })
    ∷ (codes "date", λ v r. record r { date = v })
    ∷ (codes "label", λ v r. record r { label = v })
    ∷ (codes "catalog_number", λ v r. record r { catalog_number = v })
    ∷ (codes "barcode", λ v r. record r { barcode = v })
    ∷ (codes "mbid", λ v r. record r { mbid = v })
    ∷ (codes "status", λ v r. record r { status = v })
    ∷ (codes "language", λ v r. record r { language = v })
    ∷ (codes "script", λ v r. record r { script = v })
    ∷ []

abbrev pub disc_columns : Columns Disc
disc_columns =
    (codes "mb_discid", λ v d. record d { mb_discid = v })
    ∷ (codes "cddb_id", λ v d. record d { cddb_id = v })
    ∷ (codes "ar_discid1", λ v d. record d { ar_discid1 = v })
    ∷ (codes "ar_discid2", λ v d. record d { ar_discid2 = v })
    ∷ []

abbrev pub track_columns : Columns Track
track_columns =
    (codes "title", λ v t. record t { title = v })
    ∷ (codes "artist_credit", λ v t. record t { artist_credit = v })
    ∷ (codes "isrc", λ v t. record t { isrc = v })
    ∷ (codes "mbid", λ v t. record t { mbid = v })
    ∷ (codes "recording_mbid", λ v t. record t { recording_mbid = v })
    ∷ []

-- The override of a column of a row changes that column and nothing else.
abbrev pub Writes :
    {Row : Type 0}
    → (Row → OverrideTarget)
    → Columns Row
    → Row
    → (value : Text) → (stored : Option Text) → Type 0
Writes wrap columns row value stored =
    All (λ c. apply_override (wrap row) [] c.0 value ≡ ok (wrap (c.1 stored row))) columns

-- In all optional texts of all rows.
abbrev pub AllWritten :
    Album → Release → Disc → List Track → Track → (value : Text) → (stored : Option Text) → Type 0
AllWritten a r d tracks t value stored =
    Writes on_album album_columns a value stored
    × Writes on_release release_columns r value stored
    × Writes (λ e. on_disc e tracks) disc_columns d value stored
    × Writes on_track track_columns t value stored
