-- ===== src/Session/Order.antt =====
-- The order of jobs and events, and how queueing a job keeps it.
use mathlib.Core.List.{map-append}
use phono_junk.Common.{
  ℕ, suc, ◌+◌, ◌%◌, ◌^◌, ◌<◌, ◌≤◌, ◌≡◌, refl, sym, ap, ◌∙◌, List, [], ◌∷◌, ◌++◌, map, length,
  length-append, All, ltb, choice, ltb→lt, arith,
}
use mathlib.Core.Path.{subst}
use phono_junk.Session.{JobEventKind, JobEvent, Thread, running, stopped}
use phono_junk.Session.Supervisor.{
  JobRequest, job_id_of, Job, identification, verification, scanning, export, asset_cache,
  request_of, Supervisor, queue_capacity, tagged, next_job, is_running, send, queue_job, Reply,
}
use phono_junk.Session.Rising.{Climbs, Rises, Rises-append, Rises-more, Rises-lt}

abbrev pub event_ids : List JobEvent → List ℕ
event_ids = map (λ (e : JobEvent). e.job_id)

abbrev pub request_ids : List JobRequest → List ℕ
request_ids = map job_id_of

-- `last` is the number of the job that ran last.
pub record InOrder {W : Type 0} (s : Supervisor W) : Type 0 where
  pub last : ℕ
  pub events_climb : Climbs 0 last (event_ids s.events)
  pub jobs_rise : Rises last s.next_job_id (request_ids s.jobs)
  pub own_generation : All (λ (e : JobEvent). e.session_generation ≡ s.generation) s.events
  pub has_room : length s.jobs ≤ queue_capacity

pub tagged-Climbs :
    (generation id : ℕ) (kinds : List JobEventKind)
    → Climbs id id (event_ids (tagged generation id kinds))
tagged-Climbs generation id [] = omega arith
tagged-Climbs generation id (k ∷ kinds) = (omega arith, tagged-Climbs generation id kinds)

pub tagged-All :
    (generation id : ℕ) (kinds : List JobEventKind)
    → All (λ (e : JobEvent). e.session_generation ≡ generation) (tagged generation id kinds)
tagged-All generation id [] = tt
tagged-All generation id (k ∷ kinds) = (refl, tagged-All generation id kinds)

job_id_of-request : (job : Job) (n : ℕ) → job_id_of (request_of job n) ≡ n
unfolding request_of
job_id_of-request (identification ids force) n = refl
job_id_of-request (verification ids) n = refl
job_id_of-request (scanning root request) n = refl
job_id_of-request (export ids root) n = refl
job_id_of-request (asset_cache asset dir) n = refl

-- What stays in the queue behind a job.
abbrev pub left : Thread → List JobRequest → List JobRequest
left thread rest = elim thread [ running ↦ rest | stopped ↦ [] ]

pub left_over :
    (thread : Thread) (low high : ℕ) (rest : List JobRequest)
    → Rises low high (request_ids rest)
    → Rises low high (request_ids (left thread rest))
left_over running low high rest h = h
left_over stopped low high rest h = Rises-lt low high (request_ids rest) h

pub few_left :
    (thread : Thread) (rest : List JobRequest)
    → suc (length rest) ≤ queue_capacity
    → length (left thread rest) ≤ queue_capacity
few_left running rest h = omega (arith, h)
few_left stopped rest h = omega arith

-- The number after a job's.
next_number : (n : ℕ) → n + 1 < 2 ^ 64 → (n + 1) % 2 ^ 64 ≡ n + 1
next_number n bound = omega (arith, bound)

more_ids :
    (jobs : List JobRequest) (job : Job) (n : ℕ)
    → request_ids (jobs ++ request_of job n ∷ []) ≡ request_ids jobs ++ n ∷ []
more_ids jobs job n =
    map-append job_id_of jobs (request_of job n ∷ [])
    ∙ ap (λ (k : ℕ). request_ids jobs ++ k ∷ []) (job_id_of-request job n)

module _ {W : Type 0} where
  pub next_job-InOrder :
      (s : Supervisor W) → s.next_job_id + 1 < 2 ^ 64 → InOrder s → InOrder (next_job s)
  next_job-InOrder s bound h = record {
    last = h.last;
    events_climb = h.events_climb;
    jobs_rise =
        subst (λ (n : ℕ). Rises h.last n (request_ids s.jobs))
          (sym (next_number s.next_job_id bound))
          (Rises-more h.last s.next_job_id (request_ids s.jobs) h.jobs_rise);
    own_generation = h.own_generation;
    has_room = h.has_room;
  }

  pub accepted-InOrder :
      (job : Job) (s : Supervisor W)
      → s.next_job_id + 1 < 2 ^ 64
      → length s.jobs < queue_capacity
      → InOrder s
      → InOrder (record (next_job s) { jobs = s.jobs ++ request_of job s.next_job_id ∷ [] })
  accepted-InOrder job s bound room h =
      let n : ℕ = s.next_job_id in
      record {
        last = h.last;
        events_climb = h.events_climb;
        jobs_rise =
            subst (λ (m : ℕ). Rises h.last m (request_ids (s.jobs ++ request_of job n ∷ [])))
              (sym (next_number n bound))
              (subst (λ (l : List ℕ). Rises h.last (n + 1) l) (sym (more_ids s.jobs job n))
                (Rises-append h.last n (request_ids s.jobs) h.jobs_rise));
        own_generation = h.own_generation;
        has_room = omega (arith, room, length-append s.jobs (request_of job n ∷ []));
      }

  pub queue_job-InOrder :
      (job : Job) (s : Supervisor W)
      → s.next_job_id + 1 < 2 ^ 64
      → InOrder s
      → InOrder (queue_job job s).1
  unfolding queue_job send
  queue_job-InOrder job s bound h =
      let refused = next_job-InOrder s bound h in
      let P : Reply × Supervisor W → Type 0 = λ r. InOrder r.1 in
      choice P s.sender _ _
        (λ _.
          choice P (is_running s.worker) _ _
            (λ _.
              choice P (ltb (length s.jobs) queue_capacity) _ _
                (λ room.
                  accepted-InOrder job s bound (ltb→lt (length s.jobs) queue_capacity room) h)
                refused)
            refused)
        refused

pub taken-InOrder : {W : Type 0} (s : Supervisor W) → InOrder s → InOrder (record s { events = [] })
taken-InOrder s h = record {
  last = h.last;
  events_climb = omega arith;
  jobs_rise = h.jobs_rise;
  own_generation = tt;
  has_room = h.has_room;
}
