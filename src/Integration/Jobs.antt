-- ===== src/Integration/Jobs.antt =====
-- The life of a job of the outgoing queue: `drain` of src/egr/integrations/service.py, against an
-- abstract machine.
use enterprise_agi_runtime.Prelude.{
  ℕ, zero, suc, ◌-◌, ◌≤◌, ◌<◌, ◌≡◌, refl, ◌⊎◌, inl, inr, true, false, Bool-cases, Option, List, [],
  ◌∷◌, ◌==◌, String, All, keep, take, arith, Option-cases, lookup, leb, Bool, not,
}
use enterprise_agi_runtime.Prelude.Int.{ℤ, pos, negsuc, pos_part, ltb_ℤ}
use enterprise_agi_runtime.Prelude.Exec.{ok, err, Result}
use enterprise_agi_runtime.Integration.{
  JobStatus, pending, running, done, failed, cancelled, IntegrationJob, IntegrationCall, CallError,
  World, Site, Sent, Integration, log,
}
use enterprise_agi_runtime.Integration.Queue.{
  is_open, exhausted, failure, settled, tried_once, try_job, is_due, update, replace_job,
  report_failure, order_of,
}
use enterprise_agi_runtime.Integration.Calls.{
  Order, call, get, attempt_call, after_checks, deliver, transmit, finish,
}

-- What a job promises: so many tries more, or an end.
pub data Phase : Type 0 where
  waiting : ℕ → Phase
  delivered given_up withdrawn : Phase

-- The most attempts of a job; a negative number allows as many as zero.
abbrev pub tries : {Content : Type 0} → IntegrationJob Content → ℕ
tries job = pos_part job.max_attempts

unfoldable pub phase_of : {Content : Type 0} → IntegrationJob Content → Phase
phase_of job = elim job.status [
  | pending ↦ waiting (tries job - job.attempts)
  | running ↦ waiting (tries job - job.attempts)
  | done ↦ delivered
  | failed ↦ given_up
  | cancelled ↦ withdrawn
]

-- One try, whose call succeeds or not: the job is delivered, or one try less is left, and after the
-- last one the job is given up.
pub data PhaseStep : Bool → Phase → Phase → Type 0 where
  succeed : (m : ℕ) → 0 < m → PhaseStep true (waiting m) delivered
  retry : (m n : ℕ) → m ≡ suc n → 0 < n → PhaseStep false (waiting m) (waiting n)
  give_up : (m : ℕ) → m ≡ 1 → PhaseStep false (waiting m) given_up

-- Whether a call returns, and well.
abbrev pub succeeded : Result IntegrationCall → Bool
succeeded (ok made) = made.ok
succeeded (err e) = false

module _ {Content : Type 0} where
  -- A job has no more attempts than its maximum, and fewer while it is open.
  abbrev pub WellFormed : IntegrationJob Content → Type 0
  WellFormed job =
      (job.attempts ≤ tries job) × ((is_open job.status ≡ false) ⊎ (job.attempts < tries job))

  -- A job that is open, and well formed.
  abbrev pub Tryable : IntegrationJob Content → Type 0
  Tryable job = (is_open job.status ≡ true) × (job.attempts < tries job)

  exhausted-tries : (job : IntegrationJob Content) → exhausted job ≡ leb (tries job) job.attempts
  unfolding exhausted
  exhausted-tries job = by_sign job.max_attempts
    where
      by_sign : (n : ℤ) → not (ltb_ℤ (pos job.attempts) n) ≡ leb (pos_part n) job.attempts
      by_sign (pos n) = ground arith
      by_sign (negsuc n) = ground arith

  phase_of-open :
      (job : IntegrationJob Content)
      → is_open job.status ≡ true
      → phase_of job ≡ waiting (tries job - job.attempts)
  unfolding phase_of
  phase_of-open job h = by_status job.status refl h
    where
      by_status :
          (s : JobStatus)
          → job.status ≡ s
          → is_open s ≡ true
          → phase_of job ≡ waiting (tries job - job.attempts)
      by_status pending e k = rw (phase_of, e) refl
      by_status running e k = rw (phase_of, e) refl
      by_status done e k = absurd (cc)
      by_status failed e k = absurd (cc)
      by_status cancelled e k = absurd (cc)

module _ {N Content : Type 0} (site : Site N Content) where
  failure-PhaseStep :
      (job : IntegrationJob Content) (why : Option CallError) (moment : ℕ)
      → job.attempts < tries job
      → PhaseStep false
          (waiting (tries job - job.attempts))
          (phase_of (failure site (tried_once job) why moment))
  unfolding failure phase_of
  failure-PhaseStep job why moment below = elim (Bool-cases (exhausted (tried_once job))) [
    | inl e ↦ rw (failure, e) (give_up _ (ground (arith, exhausted-tries (tried_once job))))
    | inr e ↦
        rw (failure, e)
          (retry _ _ (ground (arith, exhausted-tries (tried_once job)))
            (ground (arith, exhausted-tries (tried_once job))))
  ]

  pub settled-PhaseStep :
      (job : IntegrationJob Content) (outcome : Result IntegrationCall) (moment : ℕ)
      → is_open job.status ≡ true
      → job.attempts < tries job
      → PhaseStep (succeeded outcome) (phase_of job) (phase_of (settled site job outcome moment))
  unfolding settled phase_of
  settled-PhaseStep job (err e) moment open_status below =
      rw (phase_of-open job open_status) (failure-PhaseStep job _ moment below)
  settled-PhaseStep job (ok made) moment open_status below =
      rw (phase_of-open job open_status) (elim (Bool-cases made.ok) [
        | inl e ↦ rw (settled, e) (succeed _ (omega arith))
        | inr e ↦ rw (settled, e) (failure-PhaseStep job _ moment below)
      ])

  settled-WellFormed :
      (job : IntegrationJob Content) (outcome : Result IntegrationCall) (moment : ℕ)
      → job.attempts < tries job
      → WellFormed (settled site job outcome moment)
  unfolding settled failure
  settled-WellFormed job (err e) moment below = elim (Bool-cases (exhausted (tried_once job))) [
    | inl e' ↦
        rw (settled, failure, e') (ground (arith, exhausted-tries (tried_once job)), inl refl)
    | inr e' ↦
        rw (settled, failure, e')
          (
            ground (arith, exhausted-tries (tried_once job)),
            inr (ground (arith, exhausted-tries (tried_once job))),
          )
  ]
  settled-WellFormed job (ok made) moment below = elim (Bool-cases made.ok) [
    | inl e ↦ rw (settled, e) (omega arith, inl refl)
    | inr e ↦ elim (Bool-cases (exhausted (tried_once job))) [
      | inl e' ↦
          rw (settled, e, failure, e') (ground (arith, exhausted-tries (tried_once job)), inl refl)
      | inr e' ↦
          rw (settled, e, failure, e')
            (
              ground (arith, exhausted-tries (tried_once job)),
              inr (ground (arith, exhausted-tries (tried_once job))),
            )
    ]
  ]

  transmit-jobs :
      (made : IntegrationCall) (parcel : Sent Content) (w : World Content)
      → (transmit site made parcel w).1.jobs ≡ w.jobs
  unfolding transmit finish log
  transmit-jobs made parcel w = ground arith

  attempt_call-jobs :
      (integration : Integration) (order : Order Content) (w : World Content)
      → (attempt_call site integration order w).1.jobs ≡ w.jobs
  unfolding attempt_call after_checks deliver transmit finish log
  attempt_call-jobs integration order w = ground arith

  pub call-jobs :
      (integration_id : String) (order : Order Content) (w : World Content)
      → (call site integration_id order w).1.jobs ≡ w.jobs
  unfolding call get
  call-jobs integration_id order w = elim (Option-cases (lookup integration_id w.registry)) [
    | inr (integration, e) ↦ rw (call, get, e) (attempt_call-jobs integration order w)
    | inl e ↦ elim (Option-cases (lookup integration_id w.rows)) [
      | inr (integration, e') ↦ rw (call, get, e, e') (attempt_call-jobs integration order _)
      | inl e' ↦ rw (call, get, e, e') refl
    ]
  ]

  -- ---- the table

  pub All-replace_job :
      (job : IntegrationJob Content) (rows : List (IntegrationJob Content))
      → WellFormed job
      → All WellFormed rows
      → All WellFormed (replace_job job rows)
  unfolding replace_job
  All-replace_job job [] h k = tt
  All-replace_job job (row ∷ rows) h k = elim (Bool-cases (row.id == job.id)) [
    | inl e ↦ rw e (h, All-replace_job job rows h k.1)
    | inr e ↦ rw e (k.0, All-replace_job job rows h k.1)
  ]

  pub report_failure-jobs :
      (actor : String) (job : IntegrationJob Content) (w : World Content)
      → (report_failure site actor job w).jobs ≡ w.jobs
  unfolding report_failure log
  report_failure-jobs actor job w = ground arith

  pub try_job-WellFormed :
      (actor : String) (job : IntegrationJob Content) (w : World Content)
      → job.attempts < tries job
      → All WellFormed w.jobs
      → All WellFormed (try_job site actor job w).1.jobs
  unfolding try_job update
  try_job-WellFormed actor job w below h =
      let made = call site job.integration (order_of job) w in
      let job' = settled site job made.0 (site.now made.1) in
      rw (report_failure-jobs actor job' made.1, call-jobs job.integration (order_of job) w)
        (All-replace_job job' w.jobs (settled-WellFormed job made.0 (site.now made.1) below) h)

  pub due-Tryable :
      (moment limit : ℕ) (jobs : List (IntegrationJob Content))
      → All WellFormed jobs
      → All Tryable (take limit (keep (is_due moment) jobs))
  unfolding is_due
  due-Tryable moment zero jobs h = tt
  due-Tryable moment (suc limit) [] h = tt
  due-Tryable moment (suc limit) (job ∷ jobs) h = elim (Bool-cases (is_due moment job)) [
    | inl e ↦
        let open_status : is_open job.status ≡ true = ground arith in
        rw e ((open_status, ground arith), due-Tryable moment limit jobs h.1)
    | inr e ↦ rw e (due-Tryable moment (suc limit) jobs h.1)
  ]
