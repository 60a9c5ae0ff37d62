-- ===== src/Integration/Table.antt =====
-- The table of the outgoing queue under its operations: `enqueue`, `drain` and `cancel` of
-- src/egr/integrations/service.py.
use mathlib.Core.Path.{subst}
use enterprise_agi_runtime.Prelude.{
  ℕ, ◌<◌, ◌≡◌, refl, inl, inr, true, false, Bool-cases, Option, none, some, List, [], ◌∷◌, ◌++◌,
  String, All, find, ◌==◌, arith, Option-cases, if◌then◌else◌, lookup, Bool,
}
use enterprise_agi_runtime.Prelude.Int.{ℤ, pos, negsuc, pos_part, neg_part, eqb_ℤ}
use enterprise_agi_runtime.Prelude.Exec.{
  Result-cases, Exec, guard, config_error, disabled, ◌>>=◌, ◌>>◌,
}
use enterprise_agi_runtime.Integration.{IntegrationJob, World, Site, log}
use enterprise_agi_runtime.Integration.Calls.{Order, get}
use enterprise_agi_runtime.Integration.Queue.{
  try_job, try_jobs, drain, due, batch_of, update, enqueue, add_job, new_job, save_job, find_job,
  cancel, is_done,
}
use enterprise_agi_runtime.Integration.Jobs.{
  WellFormed, Tryable, All-replace_job, try_job-WellFormed, due-Tryable,
}

-- No number of attempts is asked for, or one that is not negative.
abbrev pub NotNegative : Option ℤ → Type 0
NotNegative none = Unit
NotNegative (some n) = neg_part n ≡ 0

module _ {N Content : Type 0} (site : Site N Content) where
  try_jobs-WellFormed :
      (actor : String) (jobs : List (IntegrationJob Content)) (w : World Content)
      → All Tryable jobs
      → All WellFormed w.jobs
      → All WellFormed (try_jobs site actor jobs w).1.jobs
  unfolding try_jobs
  try_jobs-WellFormed actor [] w h k = k
  try_jobs-WellFormed actor (job ∷ jobs) w h k =
      try_jobs-WellFormed actor jobs (try_job site actor job w).1 h.1
        (try_job-WellFormed site actor job w h.0.1 k)

  drain-WellFormed :
      (limit : Option ℕ) (actor : String) (w : World Content)
      → All WellFormed w.jobs
      → All WellFormed (drain site limit actor w).1.jobs
  unfolding drain due
  drain-WellFormed limit actor w h =
      try_jobs-WellFormed actor (due (site.now w) (batch_of site limit) w) w
        (due-Tryable site (site.now w) (batch_of site limit) w.jobs h) h

  -- What can happen to the queue.
  pub data QueueStep (w : World Content) : World Content → Type 0 where
    drained : (limit : Option ℕ) (actor : String) → QueueStep w (drain site limit actor w).1
    enqueued :
        (integration_id : String) (order : Order Content) (idempotency : Option String)
        (max_attempts : Option ℤ)
        → NotNegative max_attempts
        → QueueStep w (enqueue site integration_id order idempotency max_attempts w).1
    withdrawn : (job_id : String) → QueueStep w (cancel job_id w).1

  All-append_one :
      (jobs : List (IntegrationJob Content)) (job : IntegrationJob Content)
      → All WellFormed jobs
      → WellFormed job
      → All WellFormed (jobs ++ job ∷ [])
  All-append_one [] job h k = (k, tt)
  All-append_one (row ∷ rows) job h k = (h.0, All-append_one rows job h.1 k)

  save_job-WellFormed :
      (job : IntegrationJob Content) (w : World Content)
      → All WellFormed w.jobs
      → WellFormed job
      → All WellFormed (save_job job w).1.jobs
  unfolding save_job
  save_job-WellFormed job w h k = elim (Option-cases (find_job job.integration job.idempotency w)) [
    | inl e ↦ rw (save_job, e) (All-append_one w.jobs job h k)
    | inr (existing, e) ↦ rw (save_job, e) h
  ]

  get-jobs :
      (integration_id : String) (w : World Content) → (get site integration_id w).1.jobs ≡ w.jobs
  unfolding get
  get-jobs integration_id w = elim (Option-cases (lookup integration_id w.registry)) [
    | inr (integration, e) ↦ rw (get, e) refl
    | inl e ↦ elim (Option-cases (lookup integration_id w.rows)) [
      | inr (integration, e') ↦ rw (get, e, e') refl
      | inl e' ↦ rw (get, e, e') refl
    ]
  ]

  guarded-WellFormed :
      (b : Bool) (m : Exec (World Content) (IntegrationJob Content)) (w : World Content)
      → All WellFormed w.jobs
      → All WellFormed (m w).1.jobs
      → All WellFormed ((guard b (config_error disabled) >> m) w).1.jobs
  guarded-WellFormed true m w h k = k
  guarded-WellFormed false m w h k = h

  All-find :
      (job_id : String) (jobs : List (IntegrationJob Content)) (job : IntegrationJob Content)
      → All WellFormed jobs
      → find (λ job. job.id == job_id) jobs ≡ some job
      → WellFormed job
  All-find job_id [] job h e = absurd (cc)
  All-find job_id (row ∷ rows) job h e = elim (Bool-cases (row.id == job_id)) [
    | inl e' ↦
        let found : some row ≡ some job = rw e' at e in
        let same : row ≡ job = cc in subst WellFormed same h.0
    | inr e' ↦ All-find job_id rows job h.1 (rw e' at e)
  ]

  module _ (positive : 0 < pos_part site.queue_max_attempts) where
    add_job-WellFormed :
        (integration_id : String) (order : Order Content) (idempotency : Option String)
        (max_attempts : Option ℤ) (w : World Content)
        → NotNegative max_attempts
        → All WellFormed w.jobs
        → All WellFormed (add_job site integration_id order idempotency max_attempts w).1.jobs
    unfolding add_job new_job log
    add_job-WellFormed integration_id order idempotency max_attempts w given h =
        save_job-WellFormed _ _ h (omega arith, inr (room max_attempts given))
      where
        room :
            (max_attempts : Option ℤ)
            → NotNegative max_attempts
            → 0
              < pos_part (elim max_attempts [
                | none ↦ site.queue_max_attempts
                | some n ↦ if eqb_ℤ n (pos 0) then site.queue_max_attempts else n
              ])
        room none k = positive
        room (some (pos n)) k = ground arith
        room (some (negsuc n)) k = absurd (omega (arith, k))

    declared-WellFormed :
        (integration_id : String) (order : Order Content) (idempotency : Option String)
        (max_attempts : Option ℤ) (w : World Content)
        → NotNegative max_attempts
        → All WellFormed w.jobs
        → All WellFormed
            ((get site integration_id >>= λ integration.
                add_job site integration_id order idempotency max_attempts)
              w).1.jobs
    declared-WellFormed integration_id order idempotency max_attempts w given h =
        elim (Result-cases (get site integration_id w).0) [
          | inr (why, e) ↦ rw (e, get-jobs integration_id w) h
          | inl (integration, e) ↦ rw e (
              add_job-WellFormed integration_id order idempotency max_attempts
                (get site integration_id w).1 given (rw (get-jobs integration_id w) h))
        ]

    enqueue-WellFormed :
        (integration_id : String) (order : Order Content) (idempotency : Option String)
        (max_attempts : Option ℤ) (w : World Content)
        → NotNegative max_attempts
        → All WellFormed w.jobs
        → All WellFormed (enqueue site integration_id order idempotency max_attempts w).1.jobs
    unfolding enqueue
    enqueue-WellFormed integration_id order idempotency max_attempts w given h =
        guarded-WellFormed site.queue_enabled
          (λ v.
            (get site integration_id >>= λ integration.
            add_job site integration_id order idempotency max_attempts)
              v)
          w h (declared-WellFormed integration_id order idempotency max_attempts w given h)

    cancel-WellFormed :
        (job_id : String) (w : World Content)
        → All WellFormed w.jobs
        → All WellFormed (cancel job_id w).1.jobs
    unfolding cancel update
    cancel-WellFormed job_id w h = elim (Option-cases (find (λ job. job.id == job_id) w.jobs)) [
      | inl e ↦ rw (cancel, e) h
      | inr (job, e) ↦
          let found = All-find job_id w.jobs job h e in
          rw (cancel, e)
            (elim (Bool-cases (is_done job.status)) [
              | inl e' ↦ rw e' h
              | inr e' ↦ rw e' (All-replace_job site _ w.jobs (found.0, inl refl) h)
            ])
    ]

    -- Every job of the queue keeps to its number of attempts, and has one left while it is open:
    -- `drain`, `cancel`, and `enqueue` with no number of attempts or one that is not negative, keep
    -- this for the whole table, whether they return or raise, if the configured number of attempts is
    -- positive.
    pub queue_step-WellFormed :
        (w v : World Content) → QueueStep w v → All WellFormed w.jobs → All WellFormed v.jobs
    queue_step-WellFormed w _ (drained limit actor) h = drain-WellFormed limit actor w h
    queue_step-WellFormed w _ (enqueued integration_id order idempotency max_attempts given) h =
        enqueue-WellFormed integration_id order idempotency max_attempts w given h
    queue_step-WellFormed w _ (withdrawn job_id) h = cancel-WellFormed job_id w h
