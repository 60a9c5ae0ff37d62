-- ===== src/Proposal.antt =====
-- Proposals of change to the workspace: src/egr/domain/proposal.py.
pub mod Workbench
pub mod Approval
pub mod Life
use enterprise_agi_runtime.Prelude.{
  String, Bool, true, false, not, ◌&&◌, Option, none, some, List, [], ◌∷◌, ◌==◌, keep, is_empty,
  Dict,
}
use enterprise_agi_runtime.Domain.{Environment, RiskLevel}
use enterprise_agi_runtime.Release.{ValidationCheck, is_error}

pub data ProposalKind : Type 0 where
  agent tool workflow policy pack : ProposalKind

pub data ProposalStatus : Type 0 where
  draft validated tested approved applied rejected failed : ProposalStatus

-- What the life cycle reads of a run in the sandbox.
pub record TrialReport : Type 0 where
  pub ok : Bool

-- A proposal. Time stamps, the texts of errors and the rationale are left out.
pub record ChangeProposal : Type 0 where
  pub id : String
  pub kind : ProposalKind
  pub name : String
  pub target : String
  pub content : String
  pub origin : String
  pub environment : Environment
  pub status : ProposalStatus
  pub risk : RiskLevel
  pub fingerprint : String
  pub checks : List ValidationCheck
  pub trials : List TrialReport
  pub decided_by : Option String
  pub decision_note : Option String

-- `ChangeProposal.errors`
unfoldable pub proposal_errors : ChangeProposal → List ValidationCheck
proposal_errors proposal = keep is_error proposal.checks

-- `ChangeProposal.valid`
unfoldable pub is_valid : ChangeProposal → Bool
is_valid proposal = not (is_empty proposal.checks) && is_empty (proposal_errors proposal)

-- `self.trials[-1] if self.trials else None`
unfoldable pub last_trial : List TrialReport → Option TrialReport
last_trial [] = none
last_trial (trial ∷ []) = some trial
last_trial (trial ∷ next ∷ trials) = last_trial (next ∷ trials)

-- `ChangeProposal.tested_ok`
unfoldable pub tested_ok : ChangeProposal → Bool
tested_ok proposal = elim (last_trial proposal.trials) [ none ↦ false | some trial ↦ trial.ok ]

pub data ProposalEvent : Type 0 where
  created validated_event failed_event tested_event approved_event rejected_event applied_event :
      ProposalEvent

-- What the workbench changes: the repository of proposals, the workspace and the audit trail.
pub record Bench : Type 0 where
  pub proposals : Dict ChangeProposal
  pub files : Dict String
  pub events : List (ProposalEvent × String × String)

-- What the workbench takes from elsewhere: SHA-256, the pattern of names (a regular expression), the
-- static checks of src/egr/dev/validators.py, the sandbox of src/egr/dev/harness.py with its
-- arguments, and the content with its lines of origin, which hold the time.
pub record Kit : Type 0 where
  pub fingerprint_of : String → String
  pub name_matches : String → Bool
  pub validate_proposal : ChangeProposal → List ValidationCheck
  pub run_trial : ChangeProposal → String → TrialReport
  pub with_lineage : ChangeProposal → String

-- `ChangeProposal.content_matches_fingerprint`
unfoldable pub content_matches_fingerprint : Kit → ChangeProposal → Bool
content_matches_fingerprint kit proposal =
    not (proposal.fingerprint == "") && proposal.fingerprint == kit.fingerprint_of proposal.content
