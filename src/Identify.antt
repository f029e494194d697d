-- ===== src/Identify.antt =====
-- phono-junk-identify/src: what providers say of a disc, and their consensus.
pub mod Consensus
pub mod Scoring
pub mod Learned
pub mod Staged
use phono_junk.Common.{ℕ, Option, List}
use phono_junk.Common.Hex.{Text}

pub record AlbumMeta : Type 0 where
  pub title : Option Text
  pub artist_credit : Option Text
  pub year : Option ℕ
  pub mbid : Option Text

pub record ReleaseMeta : Type 0 where
  pub country : Option Text
  pub date : Option Text
  pub label : Option Text
  pub catalog_number : Option Text
  pub barcode : Option Text
  pub mbid : Option Text
  pub language : Option Text
  pub script : Option Text

pub record TrackMeta : Type 0 where
  pub position : ℕ
  pub title : Option Text
  pub artist_credit : Option Text
  pub length_frames : Option ℕ
  pub isrc : Option Text
  pub mbid : Option Text

-- `Value` is the type of JSON values.
pub record ProviderResult (Value : Type 0) : Type 0 where
  pub album : Option AlbumMeta
  pub release : Option ReleaseMeta
  pub tracks : List TrackMeta
  pub cover_art_urls : List Text
  pub provider : Text
  pub raw_response : Option Value
