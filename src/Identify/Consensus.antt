-- ===== src/Identify/Consensus.antt =====
-- phono-junk-identify/src/consensus.rs: one disc out of the results of several providers. The type
-- of JSON values and the conversions to it are of serde_json, hence parameters, as is the order
-- in which a `HashMap` is iterated.
pub mod Vote
pub mod Winner
pub mod Lost
pub mod Plurality
pub mod Groups
pub mod Merge
pub mod Disc
pub mod Sort
pub mod Positions
pub mod Result
pub mod Fallback
use phono_junk.Common.{ℕ, List}
use phono_junk.Common.Hex.{Text}
use phono_junk.Identify.{AlbumMeta, ReleaseMeta, TrackMeta}

pub data DisagreementEntity : Type 0 where
  album release : DisagreementEntity
  track : ℕ → DisagreementEntity

-- The names of fields, a constructor for each string of the source.
pub data Field : Type 0 where
  album_mbid release_mbid album_title album_artist_credit album_year : Field
  release_country release_date release_label release_catalog_number release_barcode : Field
  release_language release_script : Field
  track_title track_artist_credit track_length_frames track_isrc track_mbid : Field

pub record RawDisagreement (Value : Type 0) : Type 0 where
  pub entity : DisagreementEntity
  pub field : Field
  pub source_a : Text
  pub value_a : Value
  pub source_b : Text
  pub value_b : Value

pub record MergedDisc (Value : Type 0) : Type 0 where
  pub album : AlbumMeta
  pub release : ReleaseMeta
  pub tracks : List TrackMeta
  pub disagreements : List (RawDisagreement Value)
  pub sources : List Text
