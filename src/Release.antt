-- ===== src/Release.antt =====
-- Releases: src/egr/domain/release.py, and what the release manager reads of the rest of the runtime.
pub mod Gates
pub mod Signature
pub mod Versions
pub mod Manager
pub mod Deployment
pub mod Quorum
pub mod Deploy
pub mod Rollback
use enterprise_agi_runtime.Prelude.{
  ℕ, zero, suc, ◌-◌, String, Bool, true, false, not, ◌&&◌, ◌||◌, Option, none, some, List, [], ◌∷◌,
  ◌++◌, ◌==◌, eqb, ltb, any, keep, length, is_empty, contains, Dict, if◌then◌else◌,
}
use enterprise_agi_runtime.Prelude.Text.{remove_human}
use enterprise_agi_runtime.Domain.{Environment, development, staging, production}
use enterprise_agi_runtime.Security.Rbac.{Principal}

pub data Kind : Type 0 where
  agent tool workflow policy : Kind

abbrev pub eq_kind : Kind → Kind → Bool
eq_kind agent agent = true
eq_kind tool tool = true
eq_kind workflow workflow = true
eq_kind policy policy = true
eq_kind _ _ = false

-- `rank`, over `LADDER`
unfoldable pub rank : Environment → ℕ
rank development = 0
rank staging = 1
rank production = 2

pub data ReleaseStatus : Type 0 where
  draft submitted approved deployed rejected rolled_back failed : ReleaseStatus

pub data CheckLevel : Type 0 where
  error warning info : CheckLevel

-- `ValidationCheck` of src/egr/domain/proposal.py, without its texts.
pub record ValidationCheck : Type 0 where
  pub name : String
  pub ok : Bool
  pub level : CheckLevel

pub record ReleaseItem : Type 0 where
  pub kind : Kind
  pub name : String
  pub version : String
  pub revision : ℕ
  pub fingerprint : String
  pub from_environment : Environment
  pub to_environment : Environment

pub record ReleaseApproval : Type 0 where
  pub actor : String
  pub approved : Bool
  pub roles : List String
  pub note : String

pub record ReleaseSignature : Type 0 where
  pub manifest_hash : String
  pub key_id : String
  pub value : String
  pub signed_by : String

-- A release. `approved_manifest` is `metadata["manifesto_aprovado"]`. Time stamps are left out.
pub record Release : Type 0 where
  pub id : String
  pub items : List ReleaseItem
  pub target : Environment
  pub status : ReleaseStatus
  pub checks : List ValidationCheck
  pub evidence : List String
  pub created_by : String
  pub decided_by : Option String
  pub decision_note : Option String
  pub rollback_of : Option String
  pub approvals : List ReleaseApproval
  pub signature : Option ReleaseSignature
  pub approved_manifest : Option String

abbrev pub is_error : ValidationCheck → Bool
is_error check = not check.ok && elim check.level [ error ↦ true | _ ↦ false ]

-- `Release.errors`
unfoldable pub errors : Release → List ValidationCheck
errors release = keep is_error release.checks

-- `Release.clear`
unfoldable pub clear : Release → Bool
clear release = not (is_empty release.checks) && is_empty (errors release)

abbrev pub is_production : Release → Bool
is_production release = elim release.target [ production ↦ true | _ ↦ false ]

-- `Release.vetoes`
unfoldable pub vetoes : Release → List ReleaseApproval
vetoes release = keep (λ item. not item.approved) release.approvals

-- The loop of `Release.approvers` over the votes in favour, with the names so far.
unfoldable pub approvers_loop : Bool → String → List ReleaseApproval → List String → List String
approvers_loop exclude_author excluded [] names = names
approvers_loop exclude_author excluded (item ∷ items) names =
    let name = remove_human item.actor in
    approvers_loop exclude_author excluded items (
      if (exclude_author && name == excluded) || contains name names
      then names
      else names ++ name ∷ [])

-- `Release.approvers(exclude_author=…)`
unfoldable pub approvers : Release → Bool → List String
approvers release exclude_author =
    approvers_loop exclude_author (remove_human release.created_by)
      (keep (λ item. item.approved) release.approvals) []

pub record ArtifactVersion : Type 0 where
  pub kind : Kind
  pub name : String
  pub revision : ℕ
  pub version : String
  pub content : String
  pub fingerprint : String
  pub environment : Environment
  pub created_by : String
  pub release_id : Option String
  pub note : String

-- The fields of an evaluation run that the gates read.
pub record EvaluationRun : Type 0 where
  pub id : String
  pub target : String
  pub target_kind : Kind
  pub passed : Bool
  pub artifact_version : String

pub data EventType : Type 0 where
  release_created release_submitted release_approval_recorded release_approved : EventType
  release_signed release_rejected release_deployed release_rolled_back artifact_versioned :
      EventType

-- An audit event of the manager: its type, its actor and the release or artifact that it is about.
pub record Event : Type 0 where
  pub type : EventType
  pub actor : String
  pub subject : String

-- What the manager changes: the repositories, the workspace files and the audit trail.
pub record World : Type 0 where
  pub releases : Dict Release
  pub versions : List ArtifactVersion
  pub files : Dict String
  pub trail : List Event

-- What is signed and compared: `manifest` of src/egr/release/signature.py.
pub record Manifest : Type 0 where
  pub release : String
  pub target : Environment
  pub items : List ReleaseItem
  pub evidence : List String
  pub created_by : String

-- What the manager takes from elsewhere: functions of Python's library (`fingerprint_of` and
-- `manifest_hash`, over SHA-256 and JSON, `hmac` with SHA-256, and `decimal`, the text of a number),
-- the YAML reader behind a declared version or environment and the line that sets it, the master
-- key, the configuration, and the runtime's registries, evaluations, scans and identities.
pub record Site : Type 0 where
  pub fingerprint_of : String → String
  pub manifest_hash : Manifest → String
  pub hmac : String → String → String
  pub decimal : ℕ → String
  pub declared_version : Kind → String → String
  pub declared_environment : Kind → String → Environment
  pub with_environment : String → Environment → String
  pub master_key : Option (String × String)
  pub signature_environments : List String
  pub min_approvals : ℕ
  pub min_approvals_production : ℕ
  pub approver_roles : List String
  pub allow_self_approval : Bool
  pub identity_required : Bool
  pub approval_min_role : String
  pub allow_agent_approval : Bool
  pub resolve : String → Option Principal
  pub exists : Kind → String → Bool
  pub current_version : Kind → String → String
  pub evaluations : List EvaluationRun
  pub blocking_findings : Kind → String → ℕ
