-- ===== src/Catalog.antt =====
-- phono-junk-catalog/src/types.rs, and the lifecycle states of phono-junk-core/src/lib.rs: the rows of
-- the catalog and their stored forms. An `Id` is an `i64`.
pub mod Stored
pub mod Cover
use phono_junk.Common.{
  ℕ, Option, none, some, List, [], ◌∷◌, ◌++◌, if◌then◌else◌, ltb, leb, ◌==◌, Bool, true, false,
  ◌&&◌, ◌||◌,
}
use phono_junk.Common.Int.{ℤ, pos, negsuc}
use phono_junk.Common.Hex.{Text}
use phono_junk.Common.Text.{codes, text_eq}
use phono_junk.Toc.{Toc}

pub record Album : Type 0 where
  pub id : ℤ
  pub title : Text
  pub sort_title : Option Text
  pub artist_credit : Option Text
  pub year : Option ℕ
  pub mbid : Option Text
  pub primary_type : Option Text
  pub secondary_types : List Text
  pub first_release_date : Option Text

pub record Release : Type 0 where
  pub id : ℤ
  pub album_id : ℤ
  pub country : Option Text
  pub date : Option Text
  pub label : Option Text
  pub catalog_number : Option Text
  pub barcode : Option Text
  pub mbid : Option Text
  pub status : Option Text
  pub language : Option Text
  pub script : Option Text

pub record Disc : Type 0 where
  pub id : ℤ
  pub release_id : ℤ
  pub disc_number : ℕ
  pub format : Text
  pub toc : Option Toc
  pub mb_discid : Option Text
  pub cddb_id : Option Text
  pub ar_discid1 : Option Text
  pub ar_discid2 : Option Text
  pub mcn : Option Text

pub record Track : Type 0 where
  pub id : ℤ
  pub disc_id : ℤ
  pub position : ℕ
  pub title : Option Text
  pub artist_credit : Option Text
  pub length_frames : Option ℕ
  pub isrc : Option Text
  pub mbid : Option Text
  pub recording_mbid : Option Text

pub data AssetType : Type 0 where
  front_cover back_cover cd_label booklet obi_strip tray_insert : AssetType
  other : Text → AssetType

pub data CatalogEntityKey : Type 0 where
  album_key release_key disc_key track_key asset_key rip_file_key : Text → CatalogEntityKey

pub data IdentificationState : Type 0 where
  unscanned queued working identified unidentified failed : IdentificationState

pub record Asset : Type 0 where
  pub id : ℤ
  pub release_id : ℤ
  pub provider : Text
  pub asset_type : AssetType
  pub group_id : Option ℤ
  pub sequence : ℕ
  pub source_url : Option Text
  pub file_path : Option Text
  pub width : Option ℕ
  pub height : Option ℕ
  pub confidence : Option Text
  pub mime_type : Option Text
  pub acquired_at : Option Text

pub record Override : Type 0 where
  pub id : ℤ
  pub entity_type : Text
  pub entity_id : ℤ
  pub entity_key : Option CatalogEntityKey
  pub sub_path : Option Text
  pub field : Text
  pub override_value : Text
  pub reason : Option Text
  pub created_at : Option Text
