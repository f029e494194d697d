-- ===== src/Session.antt =====
-- phono-junk-lib/src/session.rs: the background jobs. A job's function gives the events that it sends, in
-- order, whether its thread lives on, and the state of the catalog. The flag `cancel` may be set
-- by another thread at any time: what its loads see are parameters.
pub mod Supervisor
pub mod Batch
pub mod Rising
pub mod Steps
pub mod Order
pub mod Worker
pub mod Drain
pub mod Shutdown
use phono_junk.Common.{
  ℕ, zero, suc, ◌+◌, Option, none, some, List, [], ◌∷◌, ◌++◌, length, Bool, true, false,
  if◌then◌else◌, ◌⊎◌,
}
use phono_junk.Common.Int.{ℤ}
use phono_junk.Common.Outcome.{Outcome, ok, err, panic}
use phono_junk.Common.Action.{Action, ◌>>=◌, lift, map_err}
use phono_junk.Common.Hex.{Text}
use phono_junk.Catalog.{Asset, IdentificationState}
use phono_junk.Scan.{
  ScanRequest, IdentificationDisposition, queue, inline, metadata_only, ScanError, ScanEvent, found,
  ingested, cache_hit, disc_identified, scanned_only, ScanSummary,
}
use phono_junk.Scan.Identify.{Backend, identify_one, is_force}
use phono_junk.Scan.Walk.{WalkEntry, Scanned, scan_library_cancellable, is_queued}

pub data JobEventKind : Type 0 where
  started : (total : ℕ) → JobEventKind
  progress : (completed total : ℕ) → JobEventKind
  library_changed finished cancelled : JobEventKind
  failed : (error : Text) → JobEventKind
  asset_cached : (asset_id : ℤ) (bytes : List ℕ) → JobEventKind
  asset_cache_failed : (asset_id : ℤ) (error : Text) → JobEventKind

pub record JobEvent : Type 0 where
  pub session_generation : ℕ
  pub job_id : ℕ
  pub kind : JobEventKind

-- The worker's thread: it ends when it panics, too.
pub data Thread : Type 0 where
  running stopped : Thread

abbrev pub Ran : Type 0 → Type 0
Ran W = List JobEventKind × Thread × W

module _ {W : Type 0} where
  abbrev pub sending : List JobEventKind → Ran W → Ran W
  sending kinds (more, thread, w) = (kinds ++ more, thread, w)

  -- One item of a job: after a success a progress event and the rest.
  abbrev pub after_item : JobEventKind → Outcome Text (Unit {0}) × W → (W → Ran W) → Ran W
  after_item step (ok done, w) rest = sending (step ∷ []) (rest w)
  after_item step (err error, w) rest = (failed error ∷ [], running, w)
  after_item step (panic, w) rest = ([], stopped, w)

  module _ {T : Type 0} (cancel : ℕ → Bool) (run : T → Action W Text (Unit {0})) (total : ℕ) where
    -- The loop over the items from an index on; `cancel index` is what the load before that item sees.
    unfoldable pub batch_loop : ℕ → List T → W → Ran W
    batch_loop index [] w = (library_changed ∷ finished ∷ [], running, w)
    batch_loop index (item ∷ items) w =
        if cancel index
        then (cancelled ∷ [], running, w)
        else after_item (progress (index + 1) total) (run item w) (batch_loop (index + 1) items)

  unfoldable pub run_batch :
      {T : Type 0} → (cancel : ℕ → Bool) → (run : T → Action W Text (Unit {0})) → List T → W → Ran W
  unfolding batch_loop
  run_batch cancel run items w =
      sending (started (length items) ∷ []) (batch_loop cancel run (length items) 0 items w)

-- What the loads of the flag see in a scan job: in the walk, after it, and before each rip.
pub record CancelLoads : Type 0 where
  pub in_walk : ℕ → Bool
  pub after_walk : Bool
  pub at_item : ℕ → Bool

-- What jobs call, with errors as texts where the source turns them into texts at once.
pub record Context (W X S : Type 0) : Type 0 where
  pub backend : Backend W X S
  pub walk : Text → W → Option (List (X ⊎ WalkEntry))
  pub show_error : ScanError X → Text
  pub verify_disc : ℤ → Action W Text (Unit {0})
  pub export_disc : Text → ℤ → Action W Text (Unit {0})
  pub cache_asset_bytes : Asset → Text → Action W Text (List ℕ)

abbrev pub is_queue : IdentificationDisposition → Bool
is_queue queue = true
is_queue inline = false
is_queue metadata_only = false

module _ {X : Type 0} where
  -- `completed` after the events, and the progress that the callback sends.
  unfoldable pub scan_progress : ℕ → List (ScanEvent X) → List JobEventKind × ℕ
  scan_progress completed [] = ([], completed)
  scan_progress completed (found path kind ∷ es) = scan_progress completed es
  scan_progress completed (e ∷ es) =
      let (kinds, last) = scan_progress (completed + 1) es in
      (progress (completed + 1) 0 ∷ kinds, last)

  -- The rips that the callback puts into `queued`.
  unfoldable pub queued_rips : List (ScanEvent X) → List ℤ
  queued_rips [] = []
  queued_rips (ingested path rip_file_id state ∷ es) =
      let rest = queued_rips es in if is_queued state then rip_file_id ∷ rest else rest
  queued_rips (e ∷ es) = queued_rips es

module _ {W X S : Type 0} (c : Context W X S) where
  -- `identify_one`, its disc dropped and its error as a text.
  unfoldable pub identify_rip : Bool → ℤ → Action W Text (Unit {0})
  unfolding identify_one
  identify_rip force_refresh rip_file_id = do
    disc ← map_err c.show_error (identify_one c.backend rip_file_id force_refresh)
    lift (ok tt)

  -- The end of a scan job, after the walk.
  unfoldable pub after_scan :
      CancelLoads → ScanRequest → ℕ → List ℤ → Outcome (ScanError X) ScanSummary → W → Ran W
  unfolding batch_loop identify_rip
  after_scan loads request completed rips (err error) w =
      (failed (c.show_error error) ∷ [], running, w)
  after_scan loads request completed rips panic w = ([], stopped, w)
  after_scan loads request completed rips (ok summary) w =
      if loads.after_walk
      then (cancelled ∷ [], running, w)
      else batch_loop loads.at_item (identify_rip (is_force request.refresh)) 0 completed
          (if is_queue request.identification then rips else []) w

  unfoldable pub run_scan_job : CancelLoads → Text → ScanRequest → W → Ran W
  unfolding scan_library_cancellable scan_progress queued_rips after_scan
  run_scan_job loads root request w =
      let (es, result, v) =
        scan_library_cancellable c.backend request root (c.walk root w) loads.in_walk w in
      let (kinds, completed) = scan_progress 0 es in
      sending (started 0 ∷ kinds) (after_scan loads request completed (queued_rips es) result v)

  abbrev pub asset_events : Asset → Outcome Text (List ℕ) × W → Ran W
  asset_events asset (ok bytes, w) =
      (asset_cached asset.id bytes ∷ library_changed ∷ finished ∷ [], running, w)
  asset_events asset (err error, w) = (asset_cache_failed asset.id error ∷ [], running, w)
  asset_events asset (panic, w) = ([], stopped, w)

  unfoldable pub run_asset_cache_job : Asset → Text → W → Ran W
  run_asset_cache_job asset cache_dir w =
      sending (started 1 ∷ []) (asset_events asset (c.cache_asset_bytes asset cache_dir w))
