-- ===== src/Scan/Walk.antt =====
-- `scan_library_cancellable` of phono-junk-lib/src/scan.rs. The events that it passes to its callback are
-- a result; what the calls of `cancelled` answer is a function of their number.
use phono_junk.Common.{
  ℕ, suc, ◌+◌, Option, none, some, List, [], ◌∷◌, ◌++◌, Bool, true, false, if◌then◌else◌, ◌&&◌, ◌⊎◌,
  inl, inr,
}
use phono_junk.Common.Outcome.{Outcome, ok, err, panic}
use phono_junk.Common.Hex.{Text}
use phono_junk.Catalog.{IdentificationState, queued}
use phono_junk.Scan.{
  ScanKind, ScanRequest, IdentifiedDisc, ScanError, walk, not_a_directory, ScanEvent, found,
  cache_hit, ingested, disc_identified, scanned_only, failed, ScanSummary, MetadataOutcome,
  metadata_cached, metadata_ingested,
}
use phono_junk.Scan.Path.{classify_path}
use phono_junk.Scan.Identify.{Backend, identify_one, is_inline, is_force}

-- An entry of the walk.
pub record WalkEntry : Type 0 where
  pub path : Text
  pub is_file : Bool

abbrev pub empty_summary : ScanSummary
empty_summary = record {
  total_files = 0;
  identified = 0;
  unidentified = 0;
  cached = 0;
  scanned_only = 0;
  failed = 0;
  disagreements_flagged = 0;
  sidecars_refreshed = 0;
}

abbrev pub count_if : Bool → ℕ
count_if true = 1
count_if false = 0

-- `state == IdentificationState::Queued`
abbrev pub is_queued : IdentificationState → Bool
is_queued queued = true
is_queued _ = false

-- What a step of a scan gives: the events, the summary so far and the state, unless the step panics.
abbrev pub Stepped : Type 0 → Type 0 → Type 0
Stepped W X = List (ScanEvent X) × Option ScanSummary × W

module _ {W X S : Type 0} (b : Backend W X S) (opts : ScanRequest) where
  -- The summary and the event after an inline identification.
  unfoldable pub after_identify :
      Text → ScanSummary → Outcome (ScanError X) IdentifiedDisc × W → Stepped W X
  after_identify path s (ok disc, w) = (
    disc_identified path disc ∷ [],
    some (record s {
      identified = s.identified + count_if disc.identified;
      unidentified = s.unidentified + count_if (if disc.identified then false else true);
      disagreements_flagged = s.disagreements_flagged + count_if disc.any_disagreements;
    }),
    w,
  )
  after_identify path s (err e, w) =
      (failed path e ∷ [], some (record s { failed = s.failed + 1 }), w)
  after_identify path s (panic, w) = ([], none, w)

  unfoldable pub prepend_event : ScanEvent X → Stepped W X → Stepped W X
  prepend_event e (es, s, w) = (e ∷ es, s, w)

  unfoldable pub after_metadata :
      Text → ScanSummary → Outcome (ScanError X) MetadataOutcome × W → Stepped W X
  unfolding after_identify identify_one prepend_event
  after_metadata path s (ok (metadata_cached rip_file_id disc_id refreshed), w) = (
    cache_hit path rip_file_id ∷ [],
    some (record s {
      cached = s.cached + 1;
      sidecars_refreshed = s.sidecars_refreshed + count_if refreshed;
    }),
    w,
  )
  after_metadata path s (ok (metadata_ingested rip_file_id state), w) =
      prepend_event (ingested path rip_file_id state) (
        if is_queued state && is_inline opts.identification
        then after_identify path s (identify_one b rip_file_id (is_force opts.refresh) w)
        else (
          scanned_only path rip_file_id ∷ [],
          some (record s { scanned_only = s.scanned_only + 1 }),
          w,
        ))
  after_metadata path s (err e, w) =
      (failed path e ∷ [], some (record s { failed = s.failed + 1 }), w)
  after_metadata path s (panic, w) = ([], none, w)

  -- The body of the loop for a file of a disc image.
  unfoldable pub scan_file : Text → ScanKind → ScanSummary → W → Stepped W X
  unfolding after_metadata
  scan_file path kind s w = prepend_event (found path kind) (
      after_metadata path (record s { total_files = s.total_files + 1 })
        (b.ingest_metadata path opts w))

  -- The body of the loop for an entry.
  unfoldable pub scan_entry : WalkEntry → ScanSummary → W → Stepped W X
  unfolding scan_file
  scan_entry entry s w =
      if entry.is_file
      then elim (classify_path entry.path) [
        | none ↦ ([], some s, w)
        | some kind ↦ scan_file entry.path kind s w
      ]
      else ([], some s, w)

  abbrev pub Scanned : Type 0
  Scanned = List (ScanEvent X) × Outcome (ScanError X) ScanSummary × W

  -- A step and the rest of the loop.
  unfoldable pub continue_scan : Stepped W X → (ScanSummary → W → Scanned) → Scanned
  continue_scan (es, none, w) rest = (es, panic, w)
  continue_scan (es, some s, w) rest = let (more, result, v) = rest s w in (es ++ more, result, v)

  unfoldable pub scan_loop :
      (cancelled : ℕ → Bool) → ℕ → ScanSummary → W → List (X ⊎ WalkEntry) → Scanned
  unfolding continue_scan scan_entry
  scan_loop cancelled calls s w [] = ([], ok s, w)
  scan_loop cancelled calls s w (entry_r ∷ entries) =
      if cancelled calls then ([], ok s, w) else elim entry_r [
        | inl x ↦ ([], err (walk x), w)
        | inr entry ↦
            continue_scan (scan_entry entry s w)
              (λ next v. scan_loop cancelled (suc calls) next v entries)
      ]

  -- `entries` are what the walk of `root` finds, if `root` is a directory.
  unfoldable pub scan_library_cancellable :
      Text → Option (List (X ⊎ WalkEntry)) → (cancelled : ℕ → Bool) → W → Scanned
  unfolding scan_loop
  scan_library_cancellable root none cancelled w = ([], err (not_a_directory root), w)
  scan_library_cancellable root (some entries) cancelled w =
      scan_loop cancelled 0 empty_summary w entries

  unfoldable pub scan_library : Text → Option (List (X ⊎ WalkEntry)) → W → Scanned
  unfolding scan_library_cancellable
  scan_library root entries w = scan_library_cancellable root entries (λ _. false) w
