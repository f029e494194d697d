-- ===== src/Scan.antt =====
-- phono-junk-lib/src/scan.rs: the data of a scan. A path is its bytes; the errors of other parts are of
-- one type `X`, each behind the variant that wraps it.
pub mod Path
pub mod Identify
pub mod Walk
pub mod Settled
pub mod Tally
pub mod Counts
use phono_junk.Common.{ℕ, Option, List, Bool}
use phono_junk.Common.Int.{ℤ}
use phono_junk.Common.Hex.{Text}
use phono_junk.Catalog.{IdentificationState}

pub data ScanKind : Type 0 where
  cue chd : ScanKind

pub data IdentificationDisposition : Type 0 where
  metadata_only queue inline : IdentificationDisposition

pub data RefreshPolicy : Type 0 where
  use_cache force : RefreshPolicy

pub record ScanRequest : Type 0 where
  pub refresh : RefreshPolicy
  pub identification : IdentificationDisposition

-- phono-junk-lib/src/identify.rs
pub record IdentifiedDisc : Type 0 where
  pub disc_id : Option ℤ
  pub album_id : Option ℤ
  pub release_id : Option ℤ
  pub any_disagreements : Bool
  pub asset_count : ℕ
  pub cached : Bool
  pub identified : Bool
  pub provider_errors : List (Text × Text)

-- The two `DbError::Migration` messages of `identify_one` are constructors.
pub data ScanError (X : Type 0) : Type 0 where
  not_a_directory unsupported_file : Text → ScanError X
  db io walk identify audio : X → ScanError X
  rip_file_missing rip_file_without_path : ℤ → ScanError X

pub data ScanEvent (X : Type 0) : Type 0 where
  found : Text → ScanKind → ScanEvent X
  cache_hit : Text → ℤ → ScanEvent X
  ingested : Text → ℤ → IdentificationState → ScanEvent X
  disc_identified : Text → IdentifiedDisc → ScanEvent X
  scanned_only : Text → ℤ → ScanEvent X
  failed : Text → ScanError X → ScanEvent X

pub record ScanSummary : Type 0 where
  pub total_files : ℕ
  pub identified : ℕ
  pub unidentified : ℕ
  pub cached : ℕ
  pub scanned_only : ℕ
  pub failed : ℕ
  pub disagreements_flagged : ℕ
  pub sidecars_refreshed : ℕ

pub data MetadataOutcome : Type 0 where
  metadata_cached : (rip_file_id disc_id : ℤ) (sidecar_refreshed : Bool) → MetadataOutcome
  metadata_ingested : (rip_file_id : ℤ) (state : IdentificationState) → MetadataOutcome

pub data IngestOutcome : Type 0 where
  ingest_cached : (rip_file_id disc_id : ℤ) → IngestOutcome
  ingest_scanned_only : (rip_file_id : ℤ) → IngestOutcome
  ingest_identified : (rip_file_id : ℤ) (disc : IdentifiedDisc) → IngestOutcome
