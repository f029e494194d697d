-- ===== src/Session/Shutdown.antt =====
-- What shutting a supervisor down leaves.
use phono_junk.Common.{◌≡◌, refl, List, [], ◌∷◌, true, false}
use phono_junk.Session.{stopped, CancelLoads, Context}
use phono_junk.Session.Supervisor.{
  JobRequest, Job, Supervisor, supervisor_closed, send, queue_job, try_events, all_cancelled,
  run_request, finish_request, work, drain, shutdown,
}
use phono_junk.Session.Steps.{Step, queued, worked, taken, closed, Reach, here, next, by_thread}
use phono_junk.Session.Drain.{Drained, drain-stopped, shutdown-Drained}

module _ {W X S : Type 0} (c : Context W X S) where
  -- No way into the supervisor, and a given state of the catalog.
  abbrev IsClosed : W → Supervisor W → Type 0
  IsClosed w s = (s.sender ≡ false) × (s.worker ≡ stopped) × (s.world ≡ w)

  queue_job-closed :
      (job : Job) (s : Supervisor W) → s.sender ≡ false → (queue_job job s).0 ≡ supervisor_closed
  unfolding queue_job send
  queue_job-closed job s h = rw h refl

  queue_job-IsClosed :
      (job : Job) (w : W) (s : Supervisor W) → IsClosed w s → IsClosed w (queue_job job s).1
  unfolding queue_job send
  queue_job-IsClosed job w s h = rw h.0 (refl, h.1, h.2)

  drain_closed : (jobs : List JobRequest) (s : Supervisor W) → (drain c jobs s).sender ≡ s.sender
  unfolding drain finish_request
  drain_closed [] s = refl
  drain_closed (request ∷ rest) s =
      by_thread (λ (t : Supervisor W). t.sender ≡ s.sender) s.worker _ _
        (λ _.
          drain_closed rest
            (finish_request c request (run_request c all_cancelled request s.world) rest s))
        refl

  work-stopped : (loads : CancelLoads) (s : Supervisor W) → s.worker ≡ stopped → work c loads s ≡ s
  unfolding work
  work-stopped loads s h = rw h refl

  shutdown-IsClosed : (w : W) (s : Supervisor W) → IsClosed w s → IsClosed w (shutdown c s)
  unfolding shutdown
  shutdown-IsClosed w s h =
      rw (drain-stopped c s.jobs (record s { cancel = true; sender = false }) h.1) (refl, refl, h.2)

  Step-IsClosed : {s t : Supervisor W} (w : W) → Step c s t → IsClosed w s → IsClosed w t
  Step-IsClosed w (queued job s bound) h = queue_job-IsClosed job w s h
  Step-IsClosed w (worked loads s) h = rw (work-stopped loads s h.1) h
  Step-IsClosed w (taken s) h = unfold try_events in h
  Step-IsClosed w (closed s) h = shutdown-IsClosed w s h

  Reach-IsClosed : {s t : Supervisor W} (w : W) → IsClosed w s → Reach c s t → IsClosed w t
  Reach-IsClosed w h here = h
  Reach-IsClosed w h (next r step) = Step-IsClosed w step (Reach-IsClosed w h r)

  -- A shutdown is final: whatever happens afterwards, every attempt to queue a job is refused as closed,
  -- the worker stays stopped, and the catalog stays as the shutdown left it. If the worker was
  -- stopped before, that is as it was. Else it is what the queued jobs leave, one after the other:
  -- a job to identify, verify, scan or export leaves it as it is, and a job to cache an asset, which
  -- does not look at the flag, is run, and if it panics no later job is.
  pub shutdown_final :
      (s t : Supervisor W) (job : Job)
      → Reach c (shutdown c s) t
      → ((queue_job job t).0 ≡ supervisor_closed)
        × (t.worker ≡ stopped)
        × (t.world ≡ (shutdown c s).world)
        × Drained c s t.world
  shutdown_final s t job r =
      let start : IsClosed (shutdown c s).world (shutdown c s) = (
        unfold shutdown in drain_closed s.jobs (record s { cancel = true; sender = false }),
        unfold shutdown in refl,
        refl,
      ) in
      let (refused, still, kept) = Reach-IsClosed (shutdown c s).world start r in
      (queue_job-closed job t refused, still, kept, rw kept (shutdown-Drained c s))
