-- ===== src/Session/Drain.antt =====
-- What the jobs left in the queue do when a supervisor is shut down.
use phono_junk.Common.{
  ℕ, ◌≡◌, ◌≢◌, refl, ◌∙◌, Option, none, some, List, [], ◌∷◌, Bool, true, false, ◌⊎◌, inl, inr, ap,
}
use phono_junk.Common.Int.{ℤ}
use phono_junk.Common.Outcome.{Outcome, ok, err, panic}
use phono_junk.Common.Action.{Action}
use phono_junk.Catalog.{Asset}
use phono_junk.Common.Hex.{Text}
use phono_junk.Scan.{ScanRequest, ScanError, ScanSummary}
use phono_junk.Scan.Walk.{WalkEntry, scan_library_cancellable, scan_loop}
use phono_junk.Session.{
  Thread, JobEventKind, asset_events, run_asset_cache_job, running, stopped, Context, run_batch,
  batch_loop, run_scan_job, after_scan, scan_progress, queued_rips, identify_rip,
}
use phono_junk.Session.Supervisor.{
  JobRequest, identify_batch, verify_batch, scan, export_batch, cache_asset, Supervisor,
  all_cancelled, run_request, finish_request, drain, shutdown,
}

-- The jobs that look at the flag.
abbrev pub heeds_cancel : JobRequest → Bool
heeds_cancel (cache_asset job_id asset dir) = false
heeds_cancel _ = true

Thread-cases : (thread : Thread) → (thread ≡ running) ⊎ (thread ≡ stopped)
Thread-cases running = inl refl
Thread-cases stopped = inr refl

module _ {W X S : Type 0} (c : Context W X S) where
  batch_unchanged :
      {T : Type 0} (run : T → Action W Text (Unit {0})) (items : List T) (w : W)
      → ((run_batch (λ _. true) run items w).1 ≡ running)
        × ((run_batch (λ _. true) run items w).2 ≡ w)
  unfolding run_batch batch_loop
  batch_unchanged run [] w = (refl, refl)
  batch_unchanged run (x ∷ items) w = (refl, refl)

  scan_stopped :
      (root : Text) (request : ScanRequest) (found : Option (List (X ⊎ WalkEntry))) (w : W)
      → ((scan_library_cancellable c.backend request root found (λ _. true) w).1 ≢ panic)
        × ((scan_library_cancellable c.backend request root found (λ _. true) w).2 ≡ w)
  unfolding scan_library_cancellable scan_loop
  scan_stopped root request none w = (λ e. cc e, refl)
  scan_stopped root request (some []) w = (λ e. cc e, refl)
  scan_stopped root request (some (entry ∷ entries)) w = (λ e. cc e, refl)

  after_scan-cancelled :
      (request : ScanRequest) (completed : ℕ) (rips : List ℤ)
      (result : Outcome (ScanError X) ScanSummary) (w : W)
      → result ≢ panic
      → ((after_scan c all_cancelled request completed rips result w).1 ≡ running)
        × ((after_scan c all_cancelled request completed rips result w).2 ≡ w)
  unfolding after_scan
  after_scan-cancelled request completed rips (ok summary) w h = (refl, refl)
  after_scan-cancelled request completed rips (err e) w h = (refl, refl)
  after_scan-cancelled request completed rips panic w h = absurd (h refl)

  scan_unchanged :
      (root : Text) (request : ScanRequest) (w : W)
      → ((run_scan_job c all_cancelled root request w).1 ≡ running)
        × ((run_scan_job c all_cancelled root request w).2 ≡ w)
  unfolding run_scan_job
  scan_unchanged root request w =
      let (lives, same) = scan_stopped root request (c.walk root w) w in
      let r = scan_library_cancellable c.backend request root (c.walk root w) (λ _. true) w in
      let (on, kept) =
        after_scan-cancelled request (scan_progress 0 r.0).1 (queued_rips r.0) r.1 r.2 lives in
      (on, kept ∙ same)

  request_unchanged :
      (request : JobRequest) (w : W)
      → heeds_cancel request ≡ true
      → ((run_request c all_cancelled request w).1 ≡ running)
        × ((run_request c all_cancelled request w).2 ≡ w)
  unfolding run_request
  request_unchanged (identify_batch id ids force) w h = batch_unchanged (identify_rip c force) ids w
  request_unchanged (verify_batch id ids) w h = batch_unchanged c.verify_disc ids w
  request_unchanged (scan id root request) w h = scan_unchanged root request w
  request_unchanged (export_batch id ids root) w h = batch_unchanged (c.export_disc root) ids w
  request_unchanged (cache_asset id asset dir) w h = cc h

  -- What the jobs left in the queue do to the catalog when the flag is set: a job that looks at it nothing,
  -- a job to cache an asset all that it does, and after a panic of that no job does anything.
  pub data OnlyCached : List JobRequest → W → W → Type 0 where
    cached_none : (w : W) → OnlyCached [] w w
    cached_skipped :
        {request : JobRequest} {rest : List JobRequest} {w v : W}
        → heeds_cancel request ≡ true
        → OnlyCached rest w v
        → OnlyCached (request ∷ rest) w v
    cached_run :
        {job_id : ℕ} {asset : Asset} {dir : Text} {rest : List JobRequest} {w u v : W}
        {result : Outcome Text (List ℕ)}
        → c.cache_asset_bytes asset dir w ≡ (result, u)
        → result ≢ panic
        → OnlyCached rest u v
        → OnlyCached (cache_asset job_id asset dir ∷ rest) w v
    cached_panic :
        {job_id : ℕ} {asset : Asset} {dir : Text} {rest : List JobRequest} {w u : W}
        → c.cache_asset_bytes asset dir w ≡ (panic, u)
        → OnlyCached (cache_asset job_id asset dir ∷ rest) w u

  pub drain-stopped :
      (jobs : List JobRequest) (s : Supervisor W) → s.worker ≡ stopped → drain c jobs s ≡ s
  unfolding drain
  drain-stopped [] s h = refl
  drain-stopped (request ∷ rest) s h = rw h refl

  -- What a request with the flag set does to the catalog and the thread.
  data Flagged (w : W) : JobRequest → Thread → W → Type 0 where
    flag_heeded : {request : JobRequest} → heeds_cancel request ≡ true → Flagged w request running w
    flag_cached :
        {job_id : ℕ} {asset : Asset} {dir : Text} {u : W} {result : Outcome Text (List ℕ)}
        → c.cache_asset_bytes asset dir w ≡ (result, u)
        → result ≢ panic
        → Flagged w (cache_asset job_id asset dir) running u
    flag_panic :
        {job_id : ℕ} {asset : Asset} {dir : Text} {u : W}
        → c.cache_asset_bytes asset dir w ≡ (panic, u)
        → Flagged w (cache_asset job_id asset dir) stopped u

  cached_asset :
      (job_id : ℕ) (asset : Asset) (dir : Text) (w : W) (r : Outcome Text (List ℕ) × W)
      → c.cache_asset_bytes asset dir w ≡ r
      → Flagged w
          (cache_asset job_id asset dir)
          (asset_events c asset r).1
          (asset_events c asset r).2
  cached_asset job_id asset dir w (ok bytes, u) e = flag_cached e (λ h. cc h)
  cached_asset job_id asset dir w (err x, u) e = flag_cached e (λ h. cc h)
  cached_asset job_id asset dir w (panic, u) e = flag_panic e

  heeded-Flagged :
      (request : JobRequest) (w : W)
      → heeds_cancel request ≡ true
      → Flagged w request
          (run_request c all_cancelled request w).1
          (run_request c all_cancelled request w).2
  heeded-Flagged request w h =
      let (on, same) = request_unchanged request w h in rw on (rw same (flag_heeded h))

  run_request-Flagged :
      (request : JobRequest) (w : W)
      → Flagged w request
          (run_request c all_cancelled request w).1
          (run_request c all_cancelled request w).2
  unfolding run_request run_asset_cache_job
  run_request-Flagged (identify_batch id ids force) w =
      heeded-Flagged (identify_batch id ids force) w refl
  run_request-Flagged (verify_batch id ids) w = heeded-Flagged (verify_batch id ids) w refl
  run_request-Flagged (scan id root request) w = heeded-Flagged (scan id root request) w refl
  run_request-Flagged (export_batch id ids root) w =
      heeded-Flagged (export_batch id ids root) w refl
  run_request-Flagged (cache_asset id asset dir) w =
      cached_asset id asset dir w (c.cache_asset_bytes asset dir w) refl

  finished-OnlyCached :
      (request : JobRequest) (rest : List JobRequest) (s : Supervisor W) (kinds : List JobEventKind)
      (thread : Thread) (u : W)
      → ((t : Supervisor W) → t.worker ≡ running → OnlyCached rest t.world (drain c rest t).world)
      → Flagged s.world request thread u
      → OnlyCached
          (request ∷ rest)
          s.world
          (drain c rest (finish_request c request (kinds, thread, u) rest s)).world
  unfolding finish_request
  finished-OnlyCached request rest s kinds thread u h (flag_heeded heeds) =
      cached_skipped heeds (h _ refl)
  finished-OnlyCached request rest s kinds thread u h (flag_cached e ne) =
      cached_run e ne (h _ refl)
  finished-OnlyCached request rest s kinds thread u h (flag_panic e) =
      let last = finish_request c request (kinds, stopped, u) rest s in
      rw (drain-stopped rest last refl) (cached_panic e)

  drain-OnlyCached :
      (jobs : List JobRequest) (s : Supervisor W)
      → s.worker ≡ running
      → OnlyCached jobs s.world (drain c jobs s).world
  unfolding drain
  drain-OnlyCached [] s h = cached_none s.world
  drain-OnlyCached (request ∷ rest) s h =
      let ran = run_request c all_cancelled request s.world in
      rw h (
        finished-OnlyCached request rest s ran.0 ran.1 ran.2 (drain-OnlyCached rest)
          (run_request-Flagged request s.world))

  -- What a shutdown does to the catalog.
  abbrev pub Drained : Supervisor W → W → Type 0
  Drained s v =
      ((s.worker ≡ stopped) × (v ≡ s.world)) ⊎ ((s.worker ≡ running) × OnlyCached s.jobs s.world v)

  pub shutdown-Drained : (s : Supervisor W) → Drained s (shutdown c s).world
  unfolding shutdown
  shutdown-Drained s =
      let start = record s { cancel = true; sender = false } in
      elim (Thread-cases s.worker) [
        | inl on ↦ inr (on, drain-OnlyCached s.jobs start on)
        | inr off ↦ inl (off, ap (λ (t : Supervisor W). t.world) (drain-stopped s.jobs start off))
      ]
