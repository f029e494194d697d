-- ===== src/Session/Worker.antt =====
-- Jobs run in the order of their numbers, and their events come in that order.
use mathlib.Core.List.{map-append}
use phono_junk.Common.{
  ℕ, suc, ◌≤◌, ◌≡◌, refl, sym, Option, none, some, List, [], ◌∷◌, length, true, false, arith,
}
use mathlib.Core.Path.{subst}
use phono_junk.Common.Hex.{Text}
use phono_junk.Session.{JobEvent, running, stopped, Ran, CancelLoads, Context}
use phono_junk.Session.Supervisor.{
  JobRequest, job_id_of, Supervisor, queue_capacity, tagged, try_events, run_request,
  finish_request, work, drain, shutdown, new_supervisor, all_cancelled,
}
use phono_junk.Session.Rising.{Climbs, Rises, Climbs-append, Climbs-more, Rises-lt, All-append}
use phono_junk.Session.Steps.{Step, queued, worked, taken, closed, Reach, here, next, by_thread}
use phono_junk.Session.Order.{
  event_ids, request_ids, InOrder, tagged-Climbs, tagged-All, left_over, few_left,
  queue_job-InOrder, taken-InOrder,
}

module _ {W X S : Type 0} (c : Context W X S) where
  -- A worker that lives on has the rest of its queue before it.
  still_queued :
      (request : JobRequest) (result : Ran W) (rest : List JobRequest) (s : Supervisor W)
      → (finish_request c request result rest s).worker ≡ running
      → (finish_request c request result rest s).jobs ≡ rest
  unfolding finish_request
  still_queued request (kinds, running, w) rest s on = refl
  still_queued request (kinds, stopped, w) rest s on = cc on

  finish_request-InOrder :
      (request : JobRequest) (result : Ran W) (rest : List JobRequest) (s : Supervisor W)
      → s.jobs ≡ request ∷ rest
      → InOrder s
      → InOrder (finish_request c request result rest s)
  unfolding finish_request
  finish_request-InOrder request (kinds, thread, w) rest s same h =
      let id : ℕ = job_id_of request in
      let rises =
        subst (λ (l : List JobRequest). Rises h.last s.next_job_id (request_ids l)) same
          h.jobs_rise in
      let sent = tagged s.generation id kinds in
      let few : suc (length rest) ≤ queue_capacity =
        subst (λ (l : List JobRequest). length l ≤ queue_capacity) same h.has_room in
      record {
        last = id;
        events_climb =
            subst (λ (l : List ℕ). Climbs 0 id l)
              (sym (map-append (λ (e : JobEvent). e.job_id) s.events sent))
              (Climbs-append 0 id id (event_ids s.events) (event_ids sent)
                (Climbs-more 0 h.last id (event_ids s.events) (omega (arith, rises.0))
                  h.events_climb)
                (tagged-Climbs s.generation id kinds));
        jobs_rise = left_over thread id s.next_job_id rest rises.1;
        own_generation =
            All-append (λ (e : JobEvent). e.session_generation ≡ s.generation) s.events sent
              h.own_generation (tagged-All s.generation id kinds);
        has_room = few_left thread rest few;
      }

  round_lem :
      (loads : CancelLoads) (s : Supervisor W) (jobs : List JobRequest)
      → s.jobs ≡ jobs
      → InOrder s
      → InOrder (elim jobs [
        | [] ↦ s
        | request ∷ rest ↦ finish_request c request (run_request c loads request s.world) rest s
      ])
  round_lem loads s [] same h = h
  round_lem loads s (request ∷ rest) same h =
      finish_request-InOrder request (run_request c loads request s.world) rest s same h

  work-InOrder : (loads : CancelLoads) (s : Supervisor W) → InOrder s → InOrder (work c loads s)
  unfolding work
  work-InOrder loads s h =
      by_thread (λ (t : Supervisor W). InOrder t) s.worker _ _
        (λ _. round_lem loads s s.jobs refl h) h

  drain-InOrder :
      (jobs : List JobRequest) (s : Supervisor W)
      → (s.worker ≡ running → s.jobs ≡ jobs)
      → InOrder s
      → InOrder (drain c jobs s)
  unfolding drain
  drain-InOrder [] s same h = h
  drain-InOrder (request ∷ rest) s same h =
      let result = run_request c all_cancelled request s.world in
      by_thread (λ (t : Supervisor W). InOrder t) s.worker _ _
        (λ on.
          drain-InOrder rest (finish_request c request result rest s)
            (still_queued request result rest s)
            (finish_request-InOrder request result rest s (same on) h))
        h

  shutdown-InOrder : (s : Supervisor W) → InOrder s → InOrder (shutdown c s)
  unfolding shutdown
  shutdown-InOrder s h =
      let start : Supervisor W = record s { cancel = true; sender = false } in
      let last =
        drain-InOrder s.jobs start (λ _. refl)
          (record {
            last = h.last;
            events_climb = h.events_climb;
            jobs_rise = h.jobs_rise;
            own_generation = h.own_generation;
            has_room = h.has_room;
          }) in
      record {
        last = last.last;
        events_climb = last.events_climb;
        jobs_rise = Rises-lt _ _ _ last.jobs_rise;
        own_generation = last.own_generation;
        has_room = omega arith;
      }

  Step-InOrder : {s t : Supervisor W} → Step c s t → InOrder s → InOrder t
  Step-InOrder (queued job s bound) h = queue_job-InOrder job s bound h
  Step-InOrder (worked loads s) h = work-InOrder loads s h
  Step-InOrder (taken s) h = unfold try_events in taken-InOrder s h
  Step-InOrder (closed s) h = shutdown-InOrder s h

  Reach-InOrder : {s t : Supervisor W} → InOrder s → Reach c s t → InOrder t
  Reach-InOrder h here = h
  Reach-InOrder h (next r step) = Step-InOrder step (Reach-InOrder h r)

  new_supervisor-InOrder :
      (generation : ℕ) (failure : Option Text) (w : W)
      → InOrder (new_supervisor generation failure w)
  unfolding new_supervisor
  new_supervisor-InOrder generation none w = record {
    last = 0;
    events_climb = omega arith;
    jobs_rise = omega arith;
    own_generation = tt;
    has_room = omega arith;
  }
  new_supervisor-InOrder generation (some error) w = record {
    last = 0;
    events_climb = (omega arith, omega arith);
    jobs_rise = omega arith;
    own_generation = (refl, tt);
    has_room = omega arith;
  }

  -- Whatever a session and its worker do, in any order, while fewer than 2 ^ 64 jobs are queued: the
  -- numbers of the jobs in the queue rise strictly, from above the number of every waiting event to
  -- below the next number to give; the waiting events come in the order of their jobs' numbers, and
  -- each bears the generation of the supervisor; and at most 256 jobs are in the queue.
  pub supervisor_order :
      (generation : ℕ) (failure : Option Text) (w : W) (s : Supervisor W)
      → Reach c (new_supervisor generation failure w) s
      → InOrder s
  supervisor_order generation failure w s r =
      Reach-InOrder (new_supervisor-InOrder generation failure w) r
