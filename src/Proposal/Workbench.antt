-- ===== src/Proposal/Workbench.antt =====
-- The life of a proposal: `Workbench` of src/egr/dev/workbench.py. The readable mirror of a
-- proposal, the copy of an overwritten file and the reload after `apply` are left out.
use enterprise_agi_runtime.Prelude.{
  String, Bool, true, false, not, ◌&&◌, none, some, [], ◌∷◌, ◌++◌, ◌==◌, is_empty, lookup, insert,
  if◌then◌else◌,
}
use enterprise_agi_runtime.Prelude.Exec.{
  Exec, config_error, not_found, wrong_state, invalid_input, missing_proof, content_changed, pure,
  guard, required, modify, ◌>>=◌, ◌>>◌,
}
use enterprise_agi_runtime.Prelude.Text.{concat, strip, before_dot}
use enterprise_agi_runtime.Domain.{Environment, RiskLevel}
use enterprise_agi_runtime.Proposal.{
  ProposalKind, ProposalStatus, TrialReport, ChangeProposal, proposal_errors, is_valid, tested_ok,
  ProposalEvent, created, validated_event, failed_event, tested_event, approved_event,
  rejected_event, applied_event, Bench, Kit, content_matches_fingerprint,
}

-- `Workbench.target_for`
unfoldable pub target_for : ProposalKind → String → String
target_for ProposalKind.agent name = concat ("agents/" ∷ name ∷ ".yaml" ∷ [])
target_for ProposalKind.workflow name = concat ("workflows/" ∷ name ∷ ".yaml" ∷ [])
target_for ProposalKind.policy name = concat ("policies/" ∷ name ∷ ".yaml" ∷ [])
target_for ProposalKind.tool name = concat ("tools/" ∷ before_dot name ∷ ".py" ∷ [])
target_for ProposalKind.pack name = concat ("packs/" ∷ name ∷ ".yaml" ∷ [])

-- `KIND_RISK`
unfoldable pub kind_risk : ProposalKind → RiskLevel
kind_risk ProposalKind.tool = RiskLevel.high
kind_risk ProposalKind.policy = RiskLevel.high
kind_risk ProposalKind.pack = RiskLevel.high
kind_risk ProposalKind.workflow = RiskLevel.medium
kind_risk ProposalKind.agent = RiskLevel.medium

abbrev pub is_tool : ProposalKind → Bool
is_tool ProposalKind.tool = true
is_tool _ = false

-- `VALIDATABLE`
unfoldable pub validatable : ProposalStatus → Bool
validatable ProposalStatus.draft = true
validatable ProposalStatus.validated = true
validatable ProposalStatus.failed = true
validatable ProposalStatus.tested = true
validatable _ = false

abbrev pub is_closed : ProposalStatus → Bool
is_closed ProposalStatus.applied = true
is_closed ProposalStatus.rejected = true
is_closed _ = false

-- `status in (VALIDATED, TESTED)`
abbrev pub is_approvable : ProposalStatus → Bool
is_approvable ProposalStatus.validated = true
is_approvable ProposalStatus.tested = true
is_approvable _ = false

abbrev pub is_approved_proposal : ProposalStatus → Bool
is_approved_proposal ProposalStatus.approved = true
is_approved_proposal _ = false

abbrev pub is_applied : ProposalStatus → Bool
is_applied ProposalStatus.applied = true
is_applied _ = false

-- `get`
unfoldable pub get_proposal : String → Exec Bench ChangeProposal
get_proposal proposal_id b = required (config_error not_found) (lookup proposal_id b.proposals) b

-- `_save`
abbrev pub save_proposal : ChangeProposal → Exec Bench (Unit {0})
save_proposal proposal =
    modify (λ b. record b { proposals = insert proposal.id proposal b.proposals })

abbrev pub record_event : ProposalEvent → String → String → Exec Bench (Unit {0})
record_event type actor subject =
    modify (λ b. record b { events = b.events ++ (type, actor, subject) ∷ [] })

-- `decision_note = note or None`, with who decides
abbrev pub decided : ChangeProposal → ProposalStatus → String → String → ChangeProposal
decided proposal status actor note = record proposal {
  status = status;
  decided_by = some actor;
  decision_note = if note == "" then none else some note;
}

-- `approve`
unfoldable pub approve_proposal : String → String → String → Exec Bench ChangeProposal
approve_proposal proposal_id actor note = do
  proposal ← get_proposal proposal_id
  guard (is_approvable proposal.status) (config_error wrong_state)
  guard (not (is_tool proposal.kind && not (tested_ok proposal))) (config_error missing_proof)
  save_proposal (decided proposal ProposalStatus.approved actor note)
  record_event approved_event actor proposal.id
  pure (decided proposal ProposalStatus.approved actor note)

-- `reject`
unfoldable pub reject_proposal : String → String → String → Exec Bench ChangeProposal
reject_proposal proposal_id actor note = do
  proposal ← get_proposal proposal_id
  guard (not (is_applied proposal.status)) (config_error wrong_state)
  save_proposal (decided proposal ProposalStatus.rejected actor note)
  record_event rejected_event actor proposal.id
  pure (decided proposal ProposalStatus.rejected actor note)

-- What `trial` makes of a proposal, with the report of the sandbox.
abbrev pub tried : ChangeProposal → TrialReport → ChangeProposal
tried proposal report = record proposal {
  trials = proposal.trials ++ report ∷ [];
  status = if report.ok then ProposalStatus.tested else ProposalStatus.failed;
}

abbrev pub applied_proposal : ChangeProposal → ChangeProposal
applied_proposal proposal = record proposal { status = ProposalStatus.applied }

module _ (kit : Kit) where
  -- What `validate` makes of a proposal.
  unfoldable pub validated_proposal : ChangeProposal → ChangeProposal
  validated_proposal proposal =
      let checked : ChangeProposal = record proposal { checks = kit.validate_proposal proposal } in
      record checked {
        status =
            if is_empty (proposal_errors checked)
            then ProposalStatus.validated
            else ProposalStatus.failed;
      }

  -- `validate`
  unfoldable pub validate : String → Exec Bench ChangeProposal
  validate proposal_id = do
    proposal ← get_proposal proposal_id
    guard (not (is_closed proposal.status)) (config_error wrong_state)
    let saved = validated_proposal proposal
    save_proposal saved
    record_event (if is_valid saved then validated_event else failed_event) saved.origin saved.id
    pure saved

  -- The proposal that `propose` makes.
  unfoldable pub new_proposal :
      String → ProposalKind → String → String → String → Environment → ChangeProposal
  new_proposal new_id kind name content origin environment = record {
    id = new_id;
    kind = kind;
    name = name;
    target = target_for kind name;
    content = content;
    origin = origin;
    environment = environment;
    status = ProposalStatus.draft;
    risk = kind_risk kind;
    fingerprint = kit.fingerprint_of content;
    checks = [];
    trials = [];
    decided_by = none;
    decision_note = none;
  }

  -- `propose`, with the new id
  unfoldable pub propose :
      String
      → ProposalKind
      → String
      → String
      → String
      → Environment
      → Bool
      → Exec Bench ChangeProposal
  propose new_id kind name content origin environment auto_validate = do
    guard (kit.name_matches name) (config_error invalid_input)
    guard (not (strip content == "")) (config_error invalid_input)
    save_proposal (new_proposal new_id kind name content origin environment)
    record_event created origin new_id
    let fresh = new_proposal new_id kind name content origin environment
    if auto_validate then validate new_id else pure fresh

  -- `trial`
  unfoldable pub trial : String → String → Exec Bench ChangeProposal
  trial proposal_id args = do
    proposal ← get_proposal proposal_id
    guard (is_tool proposal.kind) (config_error wrong_state)
    guard (validatable proposal.status) (config_error wrong_state)
    let saved = tried proposal (kit.run_trial proposal args)
    save_proposal saved
    record_event tested_event saved.origin saved.id
    pure saved

  -- `apply`
  unfoldable pub apply : String → String → Exec Bench ChangeProposal
  apply proposal_id actor = do
    proposal ← get_proposal proposal_id
    guard (is_approved_proposal proposal.status) (config_error wrong_state)
    guard (content_matches_fingerprint kit proposal) (config_error content_changed)
    modify (λ b. record b { files = insert proposal.target (kit.with_lineage proposal) b.files })
    save_proposal (applied_proposal proposal)
    record_event applied_event actor proposal.id
    pure (applied_proposal proposal)
