-- ===== src/Session/Supervisor.antt =====
-- `JobSupervisor` of phono-junk-lib/src/session.rs: the queue of jobs, its worker, and the events that wait
-- for the session. The worker takes a job and runs it in one step: the other threads only add to
-- the end of the queue, take events and set the flag, which the loads of the step may see.
use phono_junk.Common.{
  ℕ, ◌+◌, ◌%◌, ◌^◌, Option, none, some, List, [], ◌∷◌, ◌++◌, map, length, Bool, true, false,
  if◌then◌else◌, ltb,
}
use phono_junk.Common.Int.{ℤ}
use phono_junk.Common.Hex.{Text}
use phono_junk.Catalog.{Asset}
use phono_junk.Scan.{ScanRequest}
use phono_junk.Session.{
  JobEventKind, JobEvent, Thread, running, stopped, Ran, run_batch, CancelLoads, Context,
  identify_rip, run_scan_job, run_asset_cache_job,
}

pub data JobRequest : Type 0 where
  identify_batch : (job_id : ℕ) (rip_file_ids : List ℤ) (force_refresh : Bool) → JobRequest
  verify_batch : (job_id : ℕ) (disc_ids : List ℤ) → JobRequest
  scan : (job_id : ℕ) (root : Text) (request : ScanRequest) → JobRequest
  export_batch : (job_id : ℕ) (disc_ids : List ℤ) (library_root : Text) → JobRequest
  cache_asset : (job_id : ℕ) (asset : Asset) (cache_dir : Text) → JobRequest

-- What a client queues: a request that has no number yet.
pub data Job : Type 0 where
  identification : (rip_file_ids : List ℤ) (force_refresh : Bool) → Job
  verification : (disc_ids : List ℤ) → Job
  scanning : (root : Text) (request : ScanRequest) → Job
  export : (disc_ids : List ℤ) (library_root : Text) → Job
  asset_cache : (asset : Asset) (cache_dir : Text) → Job

unfoldable pub request_of : Job → ℕ → JobRequest
request_of (identification rip_file_ids force_refresh) n =
    identify_batch n rip_file_ids force_refresh
request_of (verification disc_ids) n = verify_batch n disc_ids
request_of (scanning root request) n = scan n root request
request_of (export disc_ids library_root) n = export_batch n disc_ids library_root
request_of (asset_cache asset cache_dir) n = cache_asset n asset cache_dir

abbrev pub is_running : Thread → Bool
is_running running = true
is_running stopped = false

-- `send_event`, for the events of a job.
abbrev pub tagged : ℕ → ℕ → List JobEventKind → List JobEvent
tagged generation job_id =
    map (λ kind. record { session_generation = generation; job_id = job_id; kind = kind })

-- `sender` tells whether the session still holds its end of the queue; the request `Shutdown` stands in no
-- queue, since the supervisor sends it only when it gives that end up.
pub record Supervisor (W : Type 0) : Type 0 where
  pub generation : ℕ
  pub sender : Bool
  pub jobs : List JobRequest
  pub worker : Thread
  pub cancel : Bool
  pub next_job_id : ℕ
  pub events : List JobEvent
  pub world : W

-- `sync_channel(256)`
abbrev pub queue_capacity : ℕ
queue_capacity = 256

abbrev pub job_id_of : JobRequest → ℕ
job_id_of (identify_batch job_id ids force) = job_id
job_id_of (verify_batch job_id ids) = job_id
job_id_of (scan job_id root request) = job_id
job_id_of (export_batch job_id ids root) = job_id
job_id_of (cache_asset job_id asset dir) = job_id

-- What a client gets: the number of its job, or `SupervisorClosed`; it waits while the queue is full.
pub data Reply : Type 0 where
  accepted : (job_id : ℕ) → Reply
  supervisor_closed waiting : Reply

module _ {W : Type 0} where
  -- `fetch_add` wraps around.
  abbrev pub next_job : Supervisor W → Supervisor W
  next_job s = record s { next_job_id = (s.next_job_id + 1) % 2 ^ 64 }

  -- `send`, which fails without the sender and when the worker has dropped the receiver.
  unfoldable pub send : ℕ → JobRequest → Supervisor W → Reply × Supervisor W
  send job_id request s =
      if s.sender
      then (if is_running s.worker
          then (if ltb (length s.jobs) queue_capacity
              then (accepted job_id, record s { jobs = s.jobs ++ request ∷ [] })
              else (waiting, s))
          else (supervisor_closed, s))
      else (supervisor_closed, s)

  -- The body of each of the five `queue_…` methods.
  unfoldable pub queue_job : Job → Supervisor W → Reply × Supervisor W
  unfolding send request_of
  queue_job job s = send s.next_job_id (request_of job s.next_job_id) (next_job s)

  -- `try_events`
  unfoldable pub try_events : Supervisor W → List JobEvent × Supervisor W
  try_events s = (s.events, record s { events = [] })

-- Loads that come after the flag is set.
abbrev pub all_cancelled : CancelLoads
all_cancelled = record { in_walk = λ _. true; after_walk = true; at_item = λ _. true }

module _ {W X S : Type 0} (c : Context W X S) where
  -- The worker's `match` on a request.
  unfoldable pub run_request : CancelLoads → JobRequest → W → Ran W
  unfolding run_batch identify_rip run_scan_job run_asset_cache_job
  run_request loads (identify_batch job_id rip_file_ids force_refresh) =
      run_batch loads.at_item (identify_rip c force_refresh) rip_file_ids
  run_request loads (verify_batch job_id disc_ids) = run_batch loads.at_item c.verify_disc disc_ids
  run_request loads (scan job_id root request) = run_scan_job c loads root request
  run_request loads (export_batch job_id disc_ids library_root) =
      run_batch loads.at_item (c.export_disc library_root) disc_ids
  run_request loads (cache_asset job_id asset cache_dir) = run_asset_cache_job c asset cache_dir

  -- The supervisor after a job: its events wait, and a thread that has ended drops the queue.
  unfoldable pub finish_request : JobRequest → Ran W → List JobRequest → Supervisor W → Supervisor W
  finish_request request (kinds, thread, w) rest s = record s {
    jobs = elim thread [ running ↦ rest | stopped ↦ [] ];
    worker = thread;
    events = s.events ++ tagged s.generation (job_id_of request) kinds;
    world = w;
  }

  -- One round of the worker's loop, on the first request.
  unfoldable pub work : CancelLoads → Supervisor W → Supervisor W
  unfolding run_request finish_request
  work loads s = elim s.worker [
    | running ↦ elim s.jobs [
      | [] ↦ s
      | request ∷ rest ↦ finish_request request (run_request loads request s.world) rest s
    ]
    | stopped ↦ s
  ]

  -- The worker's rounds on what is left in the queue, with the flag set.
  unfoldable pub drain : List JobRequest → Supervisor W → Supervisor W
  unfolding run_request finish_request
  drain [] s = s
  drain (request ∷ rest) s = elim s.worker [
    | running ↦
        drain rest (finish_request request (run_request all_cancelled request s.world) rest s)
    | stopped ↦ s
  ]

  -- `shutdown`: the flag is set, the sender given up, and the worker joined. A worker comes to `Shutdown`
  -- behind all queued requests.
  unfoldable pub shutdown : Supervisor W → Supervisor W
  unfolding drain
  shutdown s =
      let last = drain s.jobs (record s { cancel = true; sender = false }) in
      record last { worker = stopped; jobs = [] }

-- `new`, when the database opens and interrupted work is recovered, and when one of these fails.
unfoldable pub new_supervisor : {W : Type 0} → (generation : ℕ) → Option Text → W → Supervisor W
new_supervisor generation failure w = record {
  generation = generation;
  sender = true;
  jobs = [];
  worker = elim failure [ none ↦ running | some error ↦ stopped ];
  cancel = false;
  next_job_id = 1;
  events = elim failure [
    | none ↦ []
    | some error ↦ tagged generation 0 (JobEventKind.failed error ∷ [])
  ];
  world = w;
}
