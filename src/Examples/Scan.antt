-- ===== src/Examples/Scan.antt =====
-- A concrete backend, and scans with it: the state is the lifecycle state of the one row.
use phono_junk.Common.{ℕ, ◌+◌, ◌≡◌, ◌≤◌, ◌⊎◌, inr, refl, none, some, List, [], ◌∷◌, true, false}
use phono_junk.Common.Int.{pos}
use phono_junk.Common.Outcome.{ok, err, panic}
use phono_junk.Common.Text.{codes, text_eq}
use phono_junk.Toc.{Toc}
use phono_junk.Toc.DiscId.{DiscIds}
use phono_junk.Catalog.{IdentificationState, unscanned, queued, working}
use phono_junk.Scan.{
  cue, ScanRequest, use_cache, inline, IdentifiedDisc, ScanSummary, metadata_ingested,
}
use phono_junk.Scan.Path.{
  classify_path, extension, file_name, components, split_slashes, after_last_dot,
}
use phono_junk.Scan.Identify.{
  Backend, RipPaths, read_toc, sidecar_of, apply_sidecar, identify_work, state_after, identify_at,
  identify_one,
}
use phono_junk.Scan.Walk.{
  WalkEntry, empty_summary, scan_library_cancellable, scan_loop, continue_scan, scan_entry,
  scan_file, after_metadata, after_identify, prepend_event,
}
use phono_junk.Scan.Tally.{Tally, classified}
use phono_junk.Scan.Counts.{scan_library_cancellable-Tally}
use phono_junk.Scan.Settled.{Final, identify_one-Settled}

a_cue : classify_path (codes "/music/a.b/Disc.CUE") ≡ some cue
unfolding classify_path extension file_name components split_slashes after_last_dot text_eq
a_cue = refl

hidden : classify_path (codes "/music/.cue") ≡ none
unfolding classify_path extension file_name components split_slashes after_last_dot text_eq
hidden = refl

abbrev empty_toc : Toc
empty_toc = record {
  first_track = 1;
  last_track = 1;
  leadout_sector = 300;
  track_offsets = 150 ∷ [];
}

abbrev no_ids : DiscIds
no_ids = record {
  mb_discid = none;
  cddb_id = none;
  ar_discid1 = none;
  ar_discid2 = none;
  barcode = none;
  catalog_number = none;
}

abbrev unknown_disc : IdentifiedDisc
unknown_disc = record {
  disc_id = none;
  album_id = none;
  release_id = none;
  any_disagreements = false;
  asset_count = 0;
  cached = false;
  identified = false;
  provider_errors = [];
}

abbrev paths : RipPaths
paths = record { cue_path = some (codes "a.cue"); chd_path = none }

abbrev pub backend : Backend IdentificationState ℕ (Unit {0})
backend = record {
  get_rip_file = λ id w. (ok (some paths), w);
  set_rip_file_identification_state = λ id state w. (ok tt, state);
  read_toc_from_cue = λ path w. (ok empty_toc, w);
  read_toc_from_chd = λ path w. (err 1, w);
  compute_disc_ids = λ toc. no_ids;
  collect_redumper_sidecars = λ path w. tt;
  default_sidecar = tt;
  is_empty_sidecar = λ s. true;
  enrich_disc_ids = λ ids s. ids;
  identify_disc = λ toc ids id force w. (ok unknown_disc, w);
  apply_sidecar_to_catalog = λ id s w. (ok tt, w);
  ingest_metadata = λ path opts w. (ok (metadata_ingested (pos 1) queued), queued);
}

abbrev pub request : ScanRequest
request = record { refresh = use_cache; identification = inline }

cue_path : classify_path (codes "a.cue") ≡ some cue
unfolding classify_path extension file_name components split_slashes after_last_dot text_eq
cue_path = refl

identify_one-Settled_example :
    (v : IdentificationState) × (v ≡ working)
    × ((identify_one backend (pos 1) false queued).0
        ≡ (identify_work backend cue (codes "a.cue") (pos 1) false v).0)
    × (((identify_one backend (pos 1) false queued).0 ≡ panic)
        ⊎ Final backend
            (λ w id. w)
            (λ id state w. (state, refl, refl))
            (identify_one backend (pos 1) false queued).0
            (identify_one backend (pos 1) false queued).1)
identify_one-Settled_example =
    identify_one-Settled backend (λ w id. w) (λ id state w. (state, refl, refl)) (pos 1) false
      queued paths (codes "a.cue") cue refl refl cue_path

abbrev pub entries : List (ℕ ⊎ WalkEntry)
entries =
    inr (record { path = codes "a.cue"; is_file = true })
    ∷ inr (record { path = codes "a.bin"; is_file = true })
    ∷ []

abbrev counted : ScanSummary
counted = record empty_summary { total_files = 1; unidentified = 1 }

scans :
    (scan_library_cancellable backend request (codes "/") (some entries) (λ _. false) unscanned).1
    ≡ ok counted
unfolding scan_library_cancellable scan_loop continue_scan scan_entry scan_file after_metadata
    after_identify prepend_event identify_one identify_at identify_work state_after read_toc
    sidecar_of apply_sidecar classify_path extension file_name components split_slashes
    after_last_dot text_eq
scans = refl

scan_library_cancellable-Tally_example :
    Tally empty_summary
      (scan_library_cancellable backend request (codes "/") (some entries) (λ _. false) unscanned).0
      counted
    × (counted.total_files ≡ classified counted)
    × (counted.disagreements_flagged ≤ counted.identified + counted.unidentified)
    × (counted.sidecars_refreshed ≤ counted.cached)
scan_library_cancellable-Tally_example =
    scan_library_cancellable-Tally backend request (codes "/") (some entries) (λ _. false) unscanned
      counted scans
