-- ===== src/Session/Steps.antt =====
-- The steps of a supervisor, and what it can come to.
use phono_junk.Common.{◌+◌, ◌^◌, ◌<◌, ◌≡◌, refl}
use phono_junk.Session.{Thread, running, stopped, CancelLoads, Context}
use phono_junk.Session.Supervisor.{Job, Supervisor, queue_job, try_events, work, shutdown}

-- What happens to a supervisor: a client queues a job, the worker runs one, the session takes the events
-- or shuts the supervisor down. Fewer than 2 ^ 64 jobs are queued.
pub data Step {W X S : Type 0} (c : Context W X S) : Supervisor W → Supervisor W → Type 0 where
  queued :
      (job : Job) (s : Supervisor W) → s.next_job_id + 1 < 2 ^ 64 → Step c s (queue_job job s).1
  worked : (loads : CancelLoads) (s : Supervisor W) → Step c s (work c loads s)
  taken : (s : Supervisor W) → Step c s (try_events s).1
  closed : (s : Supervisor W) → Step c s (shutdown c s)

pub data Reach {W X S : Type 0} (c : Context W X S) (s : Supervisor W) : Supervisor W → Type 0 where
  here : Reach c s s
  next : {t u : Supervisor W} → Reach c s t → Step c t u → Reach c s u

pub by_thread :
    {A : Type 0} (P : A → Type 0) (thread : Thread) (x y : A)
    → (thread ≡ running → P x)
    → P y
    → P (elim thread [ running ↦ x | stopped ↦ y ])
by_thread P running x y h k = h refl
by_thread P stopped x y h k = k
