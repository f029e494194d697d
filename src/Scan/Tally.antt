-- ===== src/Scan/Tally.antt =====
-- The numbers of the events of a scan, and how they add up.
use phono_junk.Common.{ℕ, ◌+◌, ◌≤◌, ◌≡◌, some, List, [], ◌∷◌, ◌++◌, Bool, true, false, arith}
use mathlib.Core.Path.{subst}
use phono_junk.Scan.{
  ScanEvent, found, cache_hit, disc_identified, scanned_only, failed, ScanSummary,
}
use phono_junk.Scan.Walk.{count_if}

-- How many files a summary has put into one of its classes.
abbrev pub classified : ScanSummary → ℕ
classified s = s.identified + s.unidentified + s.cached + s.scanned_only + s.failed

some-injective : (s t : ScanSummary) → some s ≡ some t → s ≡ t
some-injective s t e = cc e

module _ {X : Type 0} where
  abbrev pub is_found : ScanEvent X → Bool
  is_found (found path kind) = true
  is_found _ = false

  abbrev pub is_cache_hit : ScanEvent X → Bool
  is_cache_hit (cache_hit path id) = true
  is_cache_hit _ = false

  abbrev pub is_disc_identified : ScanEvent X → Bool
  is_disc_identified (disc_identified path disc) = true
  is_disc_identified _ = false

  abbrev pub is_scanned_only : ScanEvent X → Bool
  is_scanned_only (scanned_only path id) = true
  is_scanned_only _ = false

  abbrev pub is_failed : ScanEvent X → Bool
  is_failed (failed path e) = true
  is_failed _ = false

  abbrev pub count : (ScanEvent X → Bool) → List (ScanEvent X) → ℕ
  count p [] = 0
  count p (e ∷ es) = count_if (p e) + count p es

  count-append :
      (p : ScanEvent X → Bool) (es fs : List (ScanEvent X))
      → count p (es ++ fs) ≡ count p es + count p fs
  count-append p [] fs = omega arith
  count-append p (e ∷ es) fs = omega (arith, count-append p es fs)

  -- From one summary to a later one, the events between them are counted, and each file that was found
  -- is in one class.
  pub record Tally (s : ScanSummary) (es : List (ScanEvent X)) (next : ScanSummary) : Type 0 where
    pub files : next.total_files ≡ s.total_files + count is_found es
    pub cache_hits : next.cached ≡ s.cached + count is_cache_hit es
    pub discs :
        next.identified + next.unidentified
        ≡ s.identified + s.unidentified + count is_disc_identified es
    pub skipped : next.scanned_only ≡ s.scanned_only + count is_scanned_only es
    pub failures : next.failed ≡ s.failed + count is_failed es
    pub classes : next.total_files + classified s ≡ s.total_files + classified next
    pub flagged :
        next.disagreements_flagged + (s.identified + s.unidentified)
        ≤ s.disagreements_flagged + (next.identified + next.unidentified)
    pub refreshed : next.sidecars_refreshed + s.cached ≤ s.sidecars_refreshed + next.cached

  pub Tally-none : (s : ScanSummary) → Tally s [] s
  Tally-none s = record {
    files = omega arith;
    cache_hits = omega arith;
    discs = omega arith;
    skipped = omega arith;
    failures = omega arith;
    classes = omega arith;
    flagged = omega arith;
    refreshed = omega arith;
  }

  pub Tally-append :
      (s t u : ScanSummary) (es fs : List (ScanEvent X))
      → Tally s es t
      → Tally t fs u
      → Tally s (es ++ fs) u
  Tally-append s t u es fs h k = record {
    files = omega (arith, h.files, k.files, count-append is_found es fs);
    cache_hits = omega (arith, h.cache_hits, k.cache_hits, count-append is_cache_hit es fs);
    discs = omega (arith, h.discs, k.discs, count-append is_disc_identified es fs);
    skipped = omega (arith, h.skipped, k.skipped, count-append is_scanned_only es fs);
    failures = omega (arith, h.failures, k.failures, count-append is_failed es fs);
    classes = omega (arith, h.classes, k.classes);
    flagged = omega (arith, h.flagged, k.flagged);
    refreshed = omega (arith, h.refreshed, k.refreshed);
  }

  pub Tally-result :
      (s t : ScanSummary) (es : List (ScanEvent X)) (next : ScanSummary)
      → some t ≡ some next
      → Tally s es t
      → Tally s es next
  Tally-result s t es next same h =
      subst (λ (n : ScanSummary). Tally s es n) (some-injective t next same) h
