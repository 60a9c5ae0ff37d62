-- ===== src/Proposal/Approval.antt =====
-- What approving and applying a proposal ask for, and what they do not: src/egr/dev/workbench.py.
use enterprise_agi_runtime.Prelude.{
  String, ◌≡◌, refl, inl, inr, ◌⊎◌, true, false, not, ◌&&◌, Bool-cases, some, List, [], ◌∷◌, ◌++◌,
  arith, ◌==◌, eq_iff, lookup, insert, lookup-insert_self, &&-right,
}
use mathlib.Core.Path.{subst, sym}
use enterprise_agi_runtime.Prelude.Exec.{
  ok, guard-ok, config_error, not_found, wrong_state, missing_proof, content_changed, pure, ◌>>=◌,
  ◌>>◌, required-ok,
}
use enterprise_agi_runtime.Proposal.{
  ProposalStatus, TrialReport, ChangeProposal, proposal_errors, last_trial, tested_ok, Bench, Kit,
  content_matches_fingerprint, approved_event, applied_event, ProposalEvent,
}
use enterprise_agi_runtime.Proposal.Workbench.{
  is_tool, validatable, is_approvable, is_approved_proposal, get_proposal, save_proposal,
  record_event, decided, approve_proposal, tried, trial, applied_proposal, apply,
}

stored-after :
    (proposal r : ChangeProposal) (type : ProposalEvent) (actor subject : String) (b c : Bench)
    → (save_proposal proposal >> (record_event type actor subject >> pure proposal)) b ≡ (ok r, c)
    → (r ≡ proposal) × (lookup r.id c.proposals ≡ some r) × (c.files ≡ b.files)
stored-after proposal r type actor subject b c h =
    let q : proposal ≡ r = ground arith in
    let t : insert proposal.id proposal b.proposals ≡ c.proposals = ground arith in
    (
      cc,
      subst (λ r. lookup r.id c.proposals ≡ some r) q
          (subst (λ d. lookup proposal.id d ≡ some proposal) t
            (lookup-insert_self proposal.id proposal b.proposals)),
      ground arith,
    )

-- When `approve` returns a proposal, that is the stored one, now approved and stored again; it was
-- validated or tested, and if it is a tool its last run in the sandbox has passed.
pub approve_proposal-ok :
    (proposal_id actor note : String) (b c : Bench) (r : ChangeProposal)
    → approve_proposal proposal_id actor note b ≡ (ok r, c)
    → (found : ChangeProposal) × (lookup proposal_id b.proposals ≡ some found)
      × (is_approvable found.status ≡ true)
      × ((is_tool found.kind ≡ false) ⊎ (tested_ok found ≡ true))
      × (r ≡ decided found ProposalStatus.approved actor note)
      × (lookup r.id c.proposals ≡ some r)
unfolding approve_proposal get_proposal
approve_proposal-ok proposal_id actor note b c r h =
    let (found, stored, h1) =
      required-ok (config_error not_found) (lookup proposal_id b.proposals) _ h in
    let (ready, h2) = guard-ok (is_approvable found.status) (config_error wrong_state) _ h1 in
    let (proof, h3) =
      guard-ok (not (is_tool found.kind && not (tested_ok found))) (config_error missing_proof) _
        h2 in
    let (same, kept, files) =
      stored-after (decided found ProposalStatus.approved actor note) r approved_event actor
        found.id b c h3 in
    (
      found,
      stored,
      ready,
      elim (Bool-cases (is_tool found.kind)) [ inl e ↦ inr (ground arith) | inr e ↦ inl e ],
      same,
      kept,
    )

last_trial-append :
    (trials : List TrialReport) (report : TrialReport)
    → last_trial (trials ++ report ∷ []) ≡ some report
unfolding last_trial
last_trial-append [] report = refl
last_trial-append (first ∷ []) report = refl
last_trial-append (first ∷ next ∷ trials) report = last_trial-append (next ∷ trials) report

module _ (kit : Kit) where
  -- When `apply` returns a proposal, that is the stored one, now applied and stored again; it was
  -- approved, its content has the fingerprint that it was proposed with, and the target file holds
  -- this content with its lines of origin.
  pub apply-ok :
      (proposal_id actor : String) (b c : Bench) (r : ChangeProposal)
      → apply kit proposal_id actor b ≡ (ok r, c)
      → (found : ChangeProposal) × (lookup proposal_id b.proposals ≡ some found)
        × (is_approved_proposal found.status ≡ true)
        × (found.fingerprint ≡ kit.fingerprint_of found.content)
        × (lookup found.target c.files ≡ some (kit.with_lineage found))
        × (r ≡ applied_proposal found)
        × (lookup r.id c.proposals ≡ some r)
  unfolding apply get_proposal content_matches_fingerprint
  apply-ok proposal_id actor b c r h =
      let (found, stored, h1) =
        required-ok (config_error not_found) (lookup proposal_id b.proposals) _ h in
      let (approved, h2) =
        guard-ok (is_approved_proposal found.status) (config_error wrong_state) _ h1 in
      let (same_content, h3) =
        guard-ok (content_matches_fingerprint kit found) (config_error content_changed) _ h2 in
      let written : Bench = record b {
        files = insert found.target (kit.with_lineage found) b.files;
      } in
      let (same, kept, files) =
        stored-after (applied_proposal found) r applied_event actor found.id written c h3 in
      (
        found,
        stored,
        approved,
        (eq_iff found.fingerprint (kit.fingerprint_of found.content)).0
            (&&-right (not (found.fingerprint == "")) _ same_content),
        subst (λ d. lookup found.target d ≡ some (kit.with_lineage found)) (sym files)
            (lookup-insert_self found.target (kit.with_lineage found) b.files),
        same,
        kept,
      )

  -- When the static checks of a proposed tool have failed and its run in the sandbox passes, `trial`
  -- and then `approve` return it approved, with the errors of the checks as they were.
  pub failed_checks_approved :
      (proposal_id args actor note : String) (b : Bench) (found : ChangeProposal)
      → lookup proposal_id b.proposals ≡ some found
      → is_tool found.kind ≡ true
      → found.status ≡ ProposalStatus.failed
      → (kit.run_trial found args).ok ≡ true
      → (r : ChangeProposal) × (((trial kit proposal_id args >>= λ p.
              approve_proposal p.id actor note)
            b).0
          ≡ ok r)
        × (is_approved_proposal r.status ≡ true)
        × (proposal_errors r ≡ proposal_errors found)
  unfolding trial approve_proposal get_proposal validatable tested_ok proposal_errors
  failed_checks_approved proposal_id args actor note b found stored kind failed passed =
      let report = kit.run_trial found args in
      (
        decided (tried found report) ProposalStatus.approved actor note,
        ground (
          arith,
          lookup-insert_self found.id (tried found report) b.proposals,
          last_trial-append found.trials report,
        ),
        refl,
        refl,
      )
