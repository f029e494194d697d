-- ===== src/Scan/Counts.antt =====
-- The summary of a scan counts its events.
use phono_junk.Common.{
  ℕ, suc, ◌+◌, ◌≤◌, ◌≡◌, refl, Option, none, some, List, [], ◌∷◌, ◌++◌, Bool, true, false,
  if◌then◌else◌, ◌&&◌, ◌⊎◌, inl, inr, arith,
}
use phono_junk.Catalog.{IdentificationState}
use phono_junk.Common.Int.{ℤ}
use phono_junk.Common.Outcome.{Outcome, ok, err, panic}
use phono_junk.Common.Hex.{Text}
use phono_junk.Scan.{
  ScanKind, ScanRequest, IdentifiedDisc, ScanError, ScanEvent, found, ingested, ScanSummary,
  MetadataOutcome, metadata_cached, metadata_ingested,
}
use phono_junk.Scan.Path.{classify_path}
use phono_junk.Scan.Identify.{Backend, identify_one, is_inline, is_force}
use phono_junk.Scan.Walk.{
  WalkEntry, empty_summary, count_if, is_queued, Stepped, after_identify, prepend_event,
  after_metadata, scan_file, scan_entry, Scanned, continue_scan, scan_loop,
  scan_library_cancellable,
}
use phono_junk.Scan.Tally.{classified, Tally, Tally-none, Tally-append, Tally-result}

one_class : (i : Bool) → count_if i + count_if (if i then false else true) ≡ 1
one_class true = refl
one_class false = refl

count_if_most : (i : Bool) → count_if i ≤ 1
count_if_most true = omega arith
count_if_most false = omega arith

module _ {W X S : Type 0} (b : Backend W X S) (opts : ScanRequest) where
  -- What a step that began at a summary, after some events, ends with.
  abbrev Counts : ScanSummary → List (ScanEvent X) → Stepped W X → Type 0
  Counts s before step = (next : ScanSummary) → step.1 ≡ some next → Tally s (before ++ step.0) next

  abbrev one_more : ScanSummary → ScanSummary
  one_more s = record s { total_files = s.total_files + 1 }

  choice-Counts :
      (s : ScanSummary) (before : List (ScanEvent X)) (test : Bool) (first other : Stepped W X)
      → Counts s before first
      → Counts s before other
      → Counts s before (if test then first else other)
  choice-Counts s before true first other h k = h
  choice-Counts s before false first other h k = k

  after_identify-Counts :
      (path : Text) (kind : ScanKind) (id : ℤ) (state : IdentificationState) (s : ScanSummary)
      (o : Outcome (ScanError X) IdentifiedDisc × W)
      → Counts s
          (found path kind ∷ ingested path id state ∷ [])
          (after_identify b opts path (one_more s) o)
  unfolding after_identify
  after_identify-Counts path kind id state s (ok disc, w) next same =
      Tally-result s _ _ next same (record {
        files = omega arith;
        cache_hits = omega arith;
        discs = omega (arith, one_class disc.identified);
        skipped = omega arith;
        failures = omega arith;
        classes = omega (arith, one_class disc.identified);
        flagged = omega (arith, one_class disc.identified, count_if_most disc.any_disagreements);
        refreshed = omega arith;
      })
  after_identify-Counts path kind id state s (err e, w) next same =
      Tally-result s _ _ next same (record {
        files = omega arith;
        cache_hits = omega arith;
        discs = omega arith;
        skipped = omega arith;
        failures = omega arith;
        classes = omega arith;
        flagged = omega arith;
        refreshed = omega arith;
      })
  after_identify-Counts path kind id state s (panic, w) next same = cc same

  after_metadata-Counts :
      (path : Text) (kind : ScanKind) (s : ScanSummary)
      (o : Outcome (ScanError X) MetadataOutcome × W)
      → Counts s (found path kind ∷ []) (after_metadata b opts path (one_more s) o)
  unfolding after_metadata prepend_event
  after_metadata-Counts path kind s (ok (metadata_cached id disc_id refreshed), w) next same =
      Tally-result s _ _ next same (record {
        files = omega arith;
        cache_hits = omega arith;
        discs = omega arith;
        skipped = omega arith;
        failures = omega arith;
        classes = omega arith;
        flagged = omega arith;
        refreshed = omega (arith, count_if_most refreshed);
      })
  after_metadata-Counts path kind s (ok (metadata_ingested id state), w) next same =
      choice-Counts s (found path kind ∷ ingested path id state ∷ [])
        (is_queued state && is_inline opts.identification) _ _
        (after_identify-Counts path kind id state s (identify_one b id (is_force opts.refresh) w))
        (λ n e. Tally-result s _ _ n e (record {
          files = omega arith;
          cache_hits = omega arith;
          discs = omega arith;
          skipped = omega arith;
          failures = omega arith;
          classes = omega arith;
          flagged = omega arith;
          refreshed = omega arith;
        }))
        next same
  after_metadata-Counts path kind s (err e, w) next same = Tally-result s _ _ next same (record {
    files = omega arith;
    cache_hits = omega arith;
    discs = omega arith;
    skipped = omega arith;
    failures = omega arith;
    classes = omega arith;
    flagged = omega arith;
    refreshed = omega arith;
  })
  after_metadata-Counts path kind s (panic, w) next same = cc same

  kind_Counts :
      (path : Text) (s : ScanSummary) (w : W) (kind : Option ScanKind)
      → Counts s [] (elim kind [ none ↦ ([], some s, w) | some k ↦ scan_file b opts path k s w ])
  unfolding scan_file prepend_event
  kind_Counts path s w none n e = Tally-result s s [] n e (Tally-none s)
  kind_Counts path s w (some kind) n e =
      after_metadata-Counts path kind s (b.ingest_metadata path opts w) n e

  scan_entry-Counts :
      (entry : WalkEntry) (s : ScanSummary) (w : W) → Counts s [] (scan_entry b opts entry s w)
  unfolding scan_entry
  scan_entry-Counts entry s w =
      choice-Counts s [] entry.is_file _ _ (kind_Counts entry.path s w (classify_path entry.path))
        (λ n e. Tally-result s s [] n e (Tally-none s))

  -- What a loop that began at a summary ends with.
  abbrev Ends : ScanSummary → Scanned b opts → Type 0
  Ends s r = (last : ScanSummary) → r.1 ≡ ok last → Tally s r.0 last

  stopping_here : (s : ScanSummary) (w : W) → Ends s ([], ok s, w)
  stopping_here s w last e = Tally-result s s [] last (cc e) (Tally-none s)

  choice-Ends :
      (s : ScanSummary) (test : Bool) (first other : Scanned b opts)
      → Ends s first
      → Ends s other
      → Ends s (if test then first else other)
  choice-Ends s true first other h k = h
  choice-Ends s false first other h k = k

  continue_scan-Ends :
      (s : ScanSummary) (step : Stepped W X) (rest : ScanSummary → W → Scanned b opts)
      → Counts s [] step
      → ((t : ScanSummary) (w : W) → Ends t (rest t w))
      → Ends s (continue_scan b opts step rest)
  unfolding continue_scan
  continue_scan-Ends s (es, none, w) rest h k last e = cc e
  continue_scan-Ends s (es, some t, w) rest h k last e =
      Tally-append s t last es (rest t w).0 (h t refl) (k t w last e)

  scan_loop-Ends :
      (cancelled : ℕ → Bool) (calls : ℕ) (s : ScanSummary) (w : W) (entries : List (X ⊎ WalkEntry))
      → Ends s (scan_loop b opts cancelled calls s w entries)
  unfolding scan_loop
  scan_loop-Ends cancelled calls s w [] = stopping_here s w
  scan_loop-Ends cancelled calls s w (inl x ∷ entries) =
      choice-Ends s (cancelled calls) _ _ (stopping_here s w) (λ last e. cc e)
  scan_loop-Ends cancelled calls s w (inr entry ∷ entries) =
      choice-Ends s (cancelled calls) _ _ (stopping_here s w) (
        continue_scan-Ends s (scan_entry b opts entry s w) _ (scan_entry-Counts entry s w)
          (λ t v. scan_loop-Ends cancelled (suc calls) t v entries))

  -- When a scan returns a summary, cancelled or not, its counters are the numbers of the events that were
  -- reported: files found, cache hits, discs identified (with or without a match), files only
  -- scanned and failures. Every file found is in exactly one of these classes, and no more
  -- disagreements than identified discs and no more refreshed sidecars than cache hits are counted.
  pub scan_library_cancellable-Tally :
      (root : Text) (found_entries : Option (List (X ⊎ WalkEntry))) (cancelled : ℕ → Bool) (w : W)
      (summary : ScanSummary)
      → (scan_library_cancellable b opts root found_entries cancelled w).1 ≡ ok summary
      → Tally empty_summary
          (scan_library_cancellable b opts root found_entries cancelled w).0
          summary
        × (summary.total_files ≡ classified summary)
        × (summary.disagreements_flagged ≤ summary.identified + summary.unidentified)
        × (summary.sidecars_refreshed ≤ summary.cached)
  unfolding scan_library_cancellable
  scan_library_cancellable-Tally root none cancelled w summary e = cc e
  scan_library_cancellable-Tally root (some entries) cancelled w summary e =
      let tally = scan_loop-Ends cancelled 0 empty_summary w entries summary e in
      (
        tally,
        omega (arith, tally.classes),
        omega (arith, tally.flagged),
        omega (arith, tally.refreshed),
      )
