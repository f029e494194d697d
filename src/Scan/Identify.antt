-- ===== src/Scan/Identify.antt =====
-- `identify_one` and `ingest_path` of phono-junk-lib/src/scan.rs.
use phono_junk.Common.{Option, none, some, Bool, true, false, if◌then◌else◌}
use phono_junk.Common.Int.{ℤ}
use phono_junk.Common.Outcome.{Outcome, ok, err, panic, ok_or}
use phono_junk.Common.Action.{Action, ◌>>=◌, ◌>>◌, lift, attempt, map_err}
use phono_junk.Common.Hex.{Text}
use phono_junk.Toc.{Toc}
use phono_junk.Toc.DiscId.{DiscIds}
use phono_junk.Catalog.{IdentificationState, working, identified, unidentified, failed}
use phono_junk.Scan.{
  ScanKind, cue, chd, IdentificationDisposition, metadata_only, queue, inline, RefreshPolicy, force,
  use_cache, ScanRequest, IdentifiedDisc, ScanError, db, audio, identify, unsupported_file,
  rip_file_missing, rip_file_without_path, MetadataOutcome, metadata_cached, metadata_ingested,
  IngestOutcome, ingest_cached, ingest_scanned_only, ingest_identified,
}
use phono_junk.Scan.Path.{classify_path}

-- The paths of a row of `rip_files`.
pub record RipPaths : Type 0 where
  pub cue_path : Option Text
  pub chd_path : Option Text

-- What a scan calls of the database, of the readers of disc images and of the identification of a disc,
-- on a state `W`, with errors `X` and sidecars `S`.
pub record Backend (W X S : Type 0) : Type 0 where
  pub get_rip_file : ℤ → Action W X (Option RipPaths)
  pub set_rip_file_identification_state : ℤ → IdentificationState → Action W X (Unit {0})
  pub read_toc_from_cue : Text → Action W X Toc
  pub read_toc_from_chd : Text → Action W X Toc
  pub compute_disc_ids : Toc → DiscIds
  pub collect_redumper_sidecars : Text → W → S
  pub default_sidecar : S
  pub is_empty_sidecar : S → Bool
  pub enrich_disc_ids : DiscIds → S → DiscIds
  pub identify_disc : Toc → DiscIds → ℤ → Bool → Action W X IdentifiedDisc
  pub apply_sidecar_to_catalog : ℤ → S → Action W X (Unit {0})
  pub ingest_metadata : Text → ScanRequest → Action W (ScanError X) MetadataOutcome

abbrev pub first_of : Option Text → Option Text → Option Text
first_of (some path) other = some path
first_of none other = other

abbrev pub is_inline : IdentificationDisposition → Bool
is_inline inline = true
is_inline metadata_only = false
is_inline queue = false

abbrev pub is_force : RefreshPolicy → Bool
is_force force = true
is_force use_cache = false

module _ {W X S : Type 0} (b : Backend W X S) where
  unfoldable pub read_toc : ScanKind → Text → Action W (ScanError X) Toc
  read_toc cue path = map_err audio (b.read_toc_from_cue path)
  read_toc chd path = map_err audio (b.read_toc_from_chd path)

  unfoldable pub sidecar_of : ScanKind → Text → W → S
  sidecar_of cue path w = b.collect_redumper_sidecars path w
  sidecar_of chd path w = b.default_sidecar

  unfoldable pub apply_sidecar : Option ℤ → S → Action W (ScanError X) (Unit {0})
  apply_sidecar none s = lift (ok tt)
  apply_sidecar (some disc_id) s =
      if b.is_empty_sidecar s
      then lift (ok tt)
      else map_err db (b.apply_sidecar_to_catalog disc_id s)

  -- The closure of `identify_one`.
  unfoldable pub identify_work : ScanKind → Text → ℤ → Bool → Action W (ScanError X) IdentifiedDisc
  unfolding read_toc sidecar_of apply_sidecar
  identify_work kind path rip_file_id force_refresh = do
    toc ← read_toc kind path
    sidecar_data ← λ w. (ok (sidecar_of kind path w), w)
    let ids : DiscIds = b.enrich_disc_ids (b.compute_disc_ids toc) sidecar_data
    disc ← map_err identify (b.identify_disc toc ids rip_file_id force_refresh)
    apply_sidecar disc.disc_id sidecar_data
    lift (ok disc)

  -- The state that `identify_one` writes last.
  unfoldable pub state_after : Outcome (ScanError X) IdentifiedDisc → IdentificationState
  state_after (ok disc) = if disc.identified then identified else unidentified
  state_after (err e) = failed
  state_after panic = working

  -- From the write of `Working` on.
  unfoldable pub identify_at : ScanKind → Text → ℤ → Bool → Action W (ScanError X) IdentifiedDisc
  unfolding identify_work state_after
  identify_at kind path rip_file_id force_refresh = do
    map_err db (b.set_rip_file_identification_state rip_file_id working)
    res ← attempt (identify_work kind path rip_file_id force_refresh)
    map_err db (b.set_rip_file_identification_state rip_file_id (state_after res))
    lift res

  unfoldable pub identify_one : ℤ → Bool → Action W (ScanError X) IdentifiedDisc
  unfolding identify_at
  identify_one rip_file_id force_refresh = do
    found ← map_err db (b.get_rip_file rip_file_id)
    rip ← lift (ok_or found (rip_file_missing rip_file_id))
    path ← lift (ok_or (first_of rip.cue_path rip.chd_path) (rip_file_without_path rip_file_id))
    kind ← lift (ok_or (classify_path path) (unsupported_file path))
    identify_at kind path rip_file_id force_refresh

  unfoldable pub ingest_rest : ScanRequest → MetadataOutcome → Action W (ScanError X) IngestOutcome
  unfolding identify_one
  ingest_rest opts (metadata_cached rip_file_id disc_id refreshed) =
      lift (ok (ingest_cached rip_file_id disc_id))
  ingest_rest opts (metadata_ingested rip_file_id state) =
      if is_inline opts.identification
      then (do
        disc ← identify_one rip_file_id (is_force opts.refresh)
        lift (ok (ingest_identified rip_file_id disc)))
      else lift (ok (ingest_scanned_only rip_file_id))

  unfoldable pub ingest_path : Text → ScanRequest → Action W (ScanError X) IngestOutcome
  unfolding ingest_rest
  ingest_path path opts = do outcome ← b.ingest_metadata path opts; ingest_rest opts outcome
