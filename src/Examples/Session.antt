-- ===== src/Examples/Session.antt =====
-- Concrete jobs and a concrete supervisor.
use phono_junk.Common.{ℕ, ◌≡◌, ◌^◌, ◌<◌, ◌+◌, ◌==◌, refl, none, some, List, [], ◌∷◌, arith}
use phono_junk.Common.Int.{pos}
use phono_junk.Common.Outcome.{Outcome, ok}
use phono_junk.Common.Text.{codes}
use phono_junk.Catalog.{Asset, front_cover, IdentificationState, queued, identified}
use phono_junk.Session.{
  started, progress, cancelled, running, stopped, Ran, sending, Context, run_batch, batch_loop,
}
use phono_junk.Session.Batch.{BatchRun, run_batch-BatchRun}
use phono_junk.Session.Supervisor.{
  verification, asset_cache, supervisor_closed, queue_job, shutdown, new_supervisor, Supervisor,
  Job,
}
use phono_junk.Session.Steps.{here, next}
use phono_junk.Session.Order.{InOrder}
use phono_junk.Session.Worker.{supervisor_order}
use phono_junk.Session.Steps
use phono_junk.Session.Drain.{Drained}
use phono_junk.Session.Shutdown.{shutdown_final}
use phono_junk.Examples.Scan.{backend, entries}

-- Each item is added to the state.
abbrev add : ℕ → ℕ → Outcome (List ℕ) (Unit {0}) × ℕ
add item w = (ok tt, item)

cancelled_after_two :
    run_batch (λ k. k == 2) add (4 ∷ 5 ∷ 6 ∷ []) 0
    ≡ (started 3 ∷ progress 1 3 ∷ progress 2 3 ∷ cancelled ∷ [], running, 5)
unfolding run_batch batch_loop
cancelled_after_two = refl

run_batch-BatchRun_example :
    (rest : Ran ℕ) × (run_batch (λ k. k == 2) add (4 ∷ 5 ∷ 6 ∷ []) 0
      ≡ sending (started 3 ∷ []) rest)
    × BatchRun (λ k. k == 2) add 0 3 (4 ∷ 5 ∷ 6 ∷ []) 0 rest
run_batch-BatchRun_example = run_batch-BatchRun (λ k. k == 2) add (4 ∷ 5 ∷ 6 ∷ []) 0

abbrev context : Context IdentificationState ℕ (Unit {0})
context = record {
  backend = backend;
  walk = λ root w. some entries;
  show_error = λ e. codes "error";
  verify_disc = λ id w. (ok tt, identified);
  export_disc = λ root id w. (ok tt, w);
  cache_asset_bytes = λ asset dir w. (ok [], w);
}

abbrev fresh : Supervisor IdentificationState
fresh = new_supervisor 7 none queued

abbrev discs : Job
discs = verification (pos 1 ∷ pos 2 ∷ [])

abbrev busy : Supervisor IdentificationState
busy = (queue_job discs fresh).1

small : fresh.next_job_id + 1 < 2 ^ 64
unfolding new_supervisor
small = omega arith

supervisor_order_example : InOrder (shutdown context busy)
supervisor_order_example =
    supervisor_order context 7 none queued (shutdown context busy)
      (next (next here (Steps.queued discs fresh small)) (Steps.closed busy))

abbrev front : Asset
front = record {
  id = pos 3;
  release_id = pos 1;
  provider = codes "itunes";
  asset_type = front_cover;
  group_id = none;
  sequence = 0;
  source_url = none;
  file_path = none;
  width = none;
  height = none;
  confidence = none;
  mime_type = none;
  acquired_at = none;
}

abbrev busier : Supervisor IdentificationState
busier = (queue_job (asset_cache front (codes "/cache")) busy).1

shutdown_final_example :
    ((queue_job discs (shutdown context busier)).0 ≡ supervisor_closed)
    × ((shutdown context busier).worker ≡ stopped)
    × ((shutdown context busier).world ≡ (shutdown context busier).world)
    × Drained context busier (shutdown context busier).world
shutdown_final_example = shutdown_final context busier (shutdown context busier) discs here
