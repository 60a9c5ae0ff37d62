-- ===== src/Integration/Tries.antt =====
-- The tries of `drain` of src/egr/integrations/service.py: which jobs it picks, and what it makes of
-- each.
use enterprise_agi_runtime.Prelude.{
  ℕ, suc, ap, ◌∙◌, ◌≡◌, refl, inl, inr, true, Bool-cases, Option, some, List, [], ◌∷◌, String, All,
  arith, zero, keep, take, length, ◌≤◌,
}
use enterprise_agi_runtime.Prelude.Exec.{Result, ok, err}
use enterprise_agi_runtime.Integration.{
  IntegrationJob, IntegrationCall, CallError, World, Site, log,
}
use enterprise_agi_runtime.Integration.Calls.{call}
use enterprise_agi_runtime.Integration.Queue.{
  try_job, try_jobs, order_of, replace_job, failure, tried_once, exhausted, settled, report_failure,
  update, is_due, is_open,
}
use enterprise_agi_runtime.Integration.Jobs.{
  phase_of, PhaseStep, Tryable, settled-PhaseStep, succeeded, report_failure-jobs, call-jobs,
}

-- The job is open, and its wait is over at the moment.
abbrev pub Awaited : {Content : Type 0} → ℕ → IntegrationJob Content → Type 0
Awaited moment job =
    (is_open job.status ≡ true) × ((t : ℕ) → job.next_attempt ≡ some t → t ≤ moment)

-- What a try leaves of a job.
record Keeps {Content : Type 0} (job job' : IntegrationJob Content) : Type 0 where
  same_id : job'.id ≡ job.id
  same_order : (job'.integration ≡ job.integration) × (order_of job' ≡ order_of job)
  same_limit : job'.max_attempts ≡ job.max_attempts
  counted : job'.attempts ≡ suc job.attempts

module _ {N Content : Type 0} (site : Site N Content) where
  -- One try of a job in the world `w`: it is called once, for its own order, the outcome of this call
  -- moves it by one step of the abstract machine, and its row holds what the try makes of it.
  pub record Tried (w : World Content) (job job' : IntegrationJob Content) (v : World Content)
      : Type 0 where
    pub same_id : job'.id ≡ job.id
    pub same_order : (job'.integration ≡ job.integration) × (order_of job' ≡ order_of job)
    pub same_limit : job'.max_attempts ≡ job.max_attempts
    pub counted : job'.attempts ≡ suc job.attempts
    pub moved :
        PhaseStep
          (succeeded (call site job.integration (order_of job) w).0)
          (phase_of job)
          (phase_of job')
    pub answered :
        (made : IntegrationCall)
        → (call site job.integration (order_of job) w).0 ≡ ok made
        → made.ok ≡ true
        → job'.call_id ≡ some made.id
    pub sent : v.sent ≡ (call site job.integration (order_of job) w).1.sent
    pub stored : v.jobs ≡ replace_job job' w.jobs

  -- The tries of some jobs, one after another, each in the world that the one before it leaves.
  pub data Drains
      : World Content
        → List (IntegrationJob Content)
        → List (IntegrationJob Content)
        → World Content
        → Type 0 where
    nothing : (w : World Content) → Drains w [] [] w
    next :
        (w v u : World Content) (job job' : IntegrationJob Content)
        (jobs jobs' : List (IntegrationJob Content))
        → Tried w job job' v
        → Drains v jobs jobs' u
        → Drains w (job ∷ jobs) (job' ∷ jobs') u

  failure-Keeps :
      (job : IntegrationJob Content) (why : Option CallError) (moment : ℕ)
      → Keeps job (failure site (tried_once job) why moment)
  unfolding failure
  failure-Keeps job why moment = elim (Bool-cases (exhausted (tried_once job))) [
    | inl e ↦
        rw (failure, e)
          (record { same_id = refl; same_order = (refl, refl); same_limit = refl; counted = refl })
    | inr e ↦
        rw (failure, e)
          (record { same_id = refl; same_order = (refl, refl); same_limit = refl; counted = refl })
  ]

  settled-Keeps :
      (job : IntegrationJob Content) (outcome : Result IntegrationCall) (moment : ℕ)
      → Keeps job (settled site job outcome moment)
  unfolding settled
  settled-Keeps job (err e) moment = failure-Keeps job _ moment
  settled-Keeps job (ok made) moment = elim (Bool-cases made.ok) [
    | inl e ↦
        rw (settled, e)
          (record { same_id = refl; same_order = (refl, refl); same_limit = refl; counted = refl })
    | inr e ↦ rw (settled, e) (failure-Keeps job _ moment)
  ]

  settled-call :
      (job : IntegrationJob Content) (outcome : Result IntegrationCall) (moment : ℕ)
      (made : IntegrationCall)
      → outcome ≡ ok made
      → made.ok ≡ true
      → (settled site job outcome moment).call_id ≡ some made.id
  unfolding settled
  settled-call job outcome moment made e h = rw (settled, e, h) refl

  report_failure-sent :
      (actor : String) (job : IntegrationJob Content) (w : World Content)
      → (report_failure site actor job w).sent ≡ w.sent
  unfolding report_failure log
  report_failure-sent actor job w = ground arith

  try_job-Tried :
      (actor : String) (job : IntegrationJob Content) (w : World Content)
      → Tryable job
      → Tried w job (try_job site actor job w).0 (try_job site actor job w).1
  unfolding try_job update
  try_job-Tried actor job w h =
      let made = call site job.integration (order_of job) w in
      let moment = site.now made.1 in
      let job' = settled site job made.0 moment in
      let k = settled-Keeps job made.0 moment in
      record {
        same_id = k.same_id;
        same_order = k.same_order;
        same_limit = k.same_limit;
        counted = k.counted;
        moved = settled-PhaseStep site job made.0 moment h.0 h.1;
        answered = settled-call job made.0 moment;
        sent = report_failure-sent actor job' made.1;
        stored = ap (replace_job job') (
            report_failure-jobs site actor job' made.1
            ∙ call-jobs site job.integration (order_of job) w);
      }

  pub try_jobs-Drains :
      (actor : String) (jobs : List (IntegrationJob Content)) (w : World Content)
      → All Tryable jobs
      → Drains w jobs (try_jobs site actor jobs w).0 (try_jobs site actor jobs w).1
  unfolding try_jobs
  try_jobs-Drains actor [] w h = nothing w
  try_jobs-Drains actor (job ∷ jobs) w h =
      let (job', v) = try_job site actor job w in
      next w v _ job job' jobs _ (try_job-Tried actor job w h.0) (try_jobs-Drains actor jobs v h.1)

  pub due-length : (n : ℕ) (jobs : List (IntegrationJob Content)) → length (take n jobs) ≤ n
  due-length zero jobs = omega arith
  due-length (suc n) [] = omega arith
  due-length (suc n) (job ∷ jobs) = omega (arith, due-length n jobs)

  is_due-Awaited :
      (moment : ℕ) (job : IntegrationJob Content) → is_due moment job ≡ true → Awaited moment job
  unfolding is_due
  is_due-Awaited moment job h = (ground arith, λ t e. ground arith)

  pub due-Awaited :
      (moment n : ℕ) (jobs : List (IntegrationJob Content))
      → All (Awaited moment) (take n (keep (is_due moment) jobs))
  due-Awaited moment zero jobs = tt
  due-Awaited moment (suc n) [] = tt
  due-Awaited moment (suc n) (job ∷ jobs) = elim (Bool-cases (is_due moment job)) [
    | inl e ↦ rw e (is_due-Awaited moment job e, due-Awaited moment n jobs)
    | inr e ↦ rw e (due-Awaited moment (suc n) jobs)
  ]
