-- ===== src/Integration/Queue.antt =====
-- The outgoing queue: `enqueue`, `drain` and `cancel` of src/egr/integrations/service.py, over
-- `IntegrationJobRepository` of src/egr/storage/repositories.py.
use enterprise_agi_runtime.Prelude.{
  ℕ, suc, ◌+◌, ◌-◌, ◌*◌, leb, eqb, String, Bool, true, false, ◌&&◌, Option, none, some, List, [],
  ◌∷◌, ◌++◌, ◌==◌, find, keep, take, if◌then◌else◌, not,
}
use enterprise_agi_runtime.Integration.Calls.{Order, get, call}
use enterprise_agi_runtime.Prelude.Exec.{
  Exec, config_error, disabled, not_found, wrong_state, Result, ok, err, guard, ◌>>=◌, ◌>>◌,
}
use enterprise_agi_runtime.Integration.{
  JobStatus, pending, running, done, failed, cancelled, IntegrationCall, IntegrationJob, CallError,
  connector_missing, EventType, World, Site, log,
}
use enterprise_agi_runtime.Prelude.Int.{ℤ, pos, ltb_ℤ, eqb_ℤ}

abbrev pub min : ℕ → ℕ → ℕ
min a b = if leb a b then a else b

-- `2 ** n`
unfoldable pub power_two : ℕ → ℕ
power_two ℕ.zero = 1
power_two (suc n) = 2 * power_two n

-- `IntegrationJob.wait_seconds`; `max(0, attempts - 1)` is the subtraction that stops at 0.
unfoldable pub wait_seconds : ℕ → ℕ → ℕ → ℕ
wait_seconds base cap attempts = min (base * power_two (attempts - 1)) cap

-- `status IN ('pending', 'running')`
abbrev pub is_open : JobStatus → Bool
is_open pending = true
is_open running = true
is_open _ = false

abbrev pub is_failed : JobStatus → Bool
is_failed failed = true
is_failed _ = false

abbrev pub is_done : JobStatus → Bool
is_done done = true
is_done _ = false

module _ {Content : Type 0} where
  -- `IntegrationJob.exhausted`
  unfoldable pub exhausted : IntegrationJob Content → Bool
  exhausted job = not (ltb_ℤ (pos job.attempts) job.max_attempts)

  -- `IntegrationJobRepository.find`, with a key
  unfoldable pub has_key : String → String → IntegrationJob Content → Bool
  has_key integration key job =
      (job.integration == integration) && elim job.idempotency [ none ↦ false | some k ↦ k == key ]

  unfoldable pub find_job : String → Option String → World Content → Option (IntegrationJob Content)
  find_job integration idempotency w = elim idempotency [
    | none ↦ none
    | some key ↦ find (has_key integration key) w.jobs
  ]

  -- `existing or job`, where the key is empty
  abbrev pub kept_job : IntegrationJob Content → IntegrationJob Content → IntegrationJob Content
  kept_job job existing = elim job.idempotency [
    | none ↦ job
    | some key ↦ if key == "" then job else existing
  ]

  -- `IntegrationJobRepository.save`: the index on (integration, idempotency) lets each key in once,
  -- and the job that has it is given back; for an empty key, the new job, which is not stored.
  unfoldable pub save_job :
      IntegrationJob Content → World Content → IntegrationJob Content × World Content
  save_job job w = elim (find_job job.integration job.idempotency w) [
    | some existing ↦ (kept_job job existing, w)
    | none ↦ (job, record w { jobs = w.jobs ++ job ∷ [] })
  ]

  -- `UPDATE integration_jobs … WHERE id = ?`
  unfoldable pub replace_job :
      IntegrationJob Content → List (IntegrationJob Content) → List (IntegrationJob Content)
  replace_job job [] = []
  replace_job job (row ∷ rows) =
      let rest = replace_job job rows in if row.id == job.id then job ∷ rest else row ∷ rest

  unfoldable pub update : IntegrationJob Content → World Content → World Content
  update job w = record w { jobs = replace_job job w.jobs }

  -- The `WHERE` of `due`
  unfoldable pub is_due : ℕ → IntegrationJob Content → Bool
  is_due moment job =
      is_open job.status && elim job.next_attempt [ none ↦ true | some t ↦ leb t moment ]

  -- `IntegrationJobRepository.due`
  unfoldable pub due : ℕ → ℕ → World Content → List (IntegrationJob Content)
  due moment limit w = take limit (keep (is_due moment) w.jobs)

module _ {Content : Type 0} where
  abbrev pub order_of : IntegrationJob Content → Order Content
  order_of job = record {
    method = job.method;
    path = job.path;
    query = job.query;
    content = job.content;
    actor = job.actor;
    environment = none;
    dry_run = false;
    preauthorized = false;
  }

  abbrev pub tried_once : IntegrationJob Content → IntegrationJob Content
  tried_once job = record job { attempts = suc job.attempts; status = running }

module _ {N Content : Type 0} (site : Site N Content) where
  unfoldable pub new_job :
      String → Order Content → Option String → Option ℤ → String → IntegrationJob Content
  new_job integration_id order idempotency max_attempts id = record {
    id = id;
    integration = integration_id;
    method = site.upper (if order.method == "" then "GET" else order.method);
    path = order.path;
    query = order.query;
    content = order.content;
    status = pending;
    attempts = 0;
    max_attempts = elim max_attempts [
      | none ↦ site.queue_max_attempts
      | some n ↦ if eqb_ℤ n (pos 0) then site.queue_max_attempts else n
    ];
    next_attempt = none;
    last_error = none;
    call_id = none;
    idempotency = idempotency;
    actor = order.actor;
  }

  unfoldable pub add_job :
      String
      → Order Content
      → Option String
      → Option ℤ
      → Exec (World Content) (IntegrationJob Content)
  add_job integration_id order idempotency max_attempts w =
      let job = new_job integration_id order idempotency max_attempts (site.new_id "job" w.drawn) in
      let drawn : World Content = record w { drawn = suc w.drawn } in
      let (saved, after) = save_job job drawn in
      (ok saved, log EventType.integration_job_queued order.actor saved.id after)

  unfoldable pub enqueue :
      String
      → Order Content
      → Option String
      → Option ℤ
      → Exec (World Content) (IntegrationJob Content)
  enqueue integration_id order idempotency max_attempts = do
    guard site.queue_enabled (config_error disabled)
    integration ← get site integration_id
    add_job integration_id order idempotency max_attempts

  -- A failed try: the job waits longer, or it is given up.
  unfoldable pub failure : IntegrationJob Content → Option CallError → ℕ → IntegrationJob Content
  failure tried why moment =
      if exhausted tried
      then record tried { status = failed; next_attempt = none; last_error = why }
      else record tried {
        status = pending;
        next_attempt =
            some
              (moment + wait_seconds site.backoff_seconds site.max_backoff_seconds tried.attempts);
        last_error = why;
      }

  -- The job after its call, at the time `moment`.
  unfoldable pub settled :
      IntegrationJob Content → Result IntegrationCall → ℕ → IntegrationJob Content
  settled job outcome moment = elim outcome [
    | err e ↦ failure (tried_once job) (some connector_missing) moment
    | ok made ↦
        if made.ok
        then record (tried_once job) {
          status = done;
          call_id = some made.id;
          last_error = none;
          next_attempt = none;
        }
        else failure (tried_once job) made.error moment
  ]

  -- The event of a job that is given up
  unfoldable pub report_failure : String → IntegrationJob Content → World Content → World Content
  report_failure actor job w =
      if is_failed job.status then log EventType.integration_job_failed actor job.id w else w

  -- One round of `drain`
  unfoldable pub try_job :
      String → IntegrationJob Content → World Content → IntegrationJob Content × World Content
  try_job actor job w =
      let (outcome, after) = call site job.integration (order_of job) w in
      let job' = settled job outcome (site.now after) in
      (job', update job' (report_failure actor job' after))

  unfoldable pub try_jobs :
      String
      → List (IntegrationJob Content)
      → World Content
      → List (IntegrationJob Content) × World Content
  try_jobs actor [] w = ([], w)
  try_jobs actor (job ∷ jobs) w =
      let (tried, after) = try_job actor job w in
      let (rest, end) = try_jobs actor jobs after in (tried ∷ rest, end)

  -- `limit or queue.batch`
  abbrev pub batch_of : Option ℕ → ℕ
  batch_of none = site.batch
  batch_of (some n) = if eqb n 0 then site.batch else n

  unfoldable pub drain :
      Option ℕ → String → World Content → List (IntegrationJob Content) × World Content
  drain limit actor w = try_jobs actor (due (site.now w) (batch_of limit) w) w

module _ {Content : Type 0} where
  -- `cancel`
  unfoldable pub cancel : String → Exec (World Content) (IntegrationJob Content)
  cancel job_id w = elim (find (λ job. job.id == job_id) w.jobs) [
    | none ↦ (err (config_error not_found), w)
    | some job ↦
        if is_done job.status
        then (err (config_error wrong_state), w)
        else let job' : IntegrationJob Content = record job {
          status = cancelled;
          next_attempt = none;
        } in
          (ok job', update job' w)
  ]
