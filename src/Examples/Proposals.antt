-- ===== src/Examples/Proposals.antt =====
-- A proposed tool, for src/egr/dev/workbench.py.
use enterprise_agi_runtime.Prelude.{
  ◌≡◌, refl, true, false, ◌⊎◌, none, some, [], ◌∷◌, lookup, insert,
}
use enterprise_agi_runtime.Prelude.Exec.{ok, ◌>>=◌}
use enterprise_agi_runtime.Prelude.Text.{concat}
use enterprise_agi_runtime.Domain.{development, RiskLevel}
use enterprise_agi_runtime.Release.{error}
use enterprise_agi_runtime.Proposal.{
  ProposalKind, ProposalStatus, ChangeProposal, proposal_errors, tested_ok, last_trial, Bench, Kit,
  content_matches_fingerprint,
}
use enterprise_agi_runtime.Proposal.Workbench.{
  is_tool, is_approvable, is_approved_proposal, get_proposal, decided, approve_proposal, trial,
  applied_proposal, apply,
}
use enterprise_agi_runtime.Proposal.Approval.{approve_proposal-ok, apply-ok, failed_checks_approved}
use enterprise_agi_runtime.Proposal.Life.{
  all_proven, start, then_step, trying, approving, reachable_proven,
}

abbrev kit : Kit
kit = record {
  fingerprint_of = λ content. concat ("#" ∷ content ∷ []);
  name_matches = λ name. true;
  validate_proposal = λ proposal. record { name = "ast"; ok = false; level = error } ∷ [];
  run_trial = λ proposal args. record { ok = true };
  with_lineage = λ proposal. concat (proposal.content ∷ " by " ∷ proposal.origin ∷ []);
}

abbrev tested_tool : ChangeProposal
tested_tool = record {
  id = "p1";
  kind = ProposalKind.tool;
  name = "sum";
  target = "tools/sum.py";
  content = "def sum";
  origin = "agent:ana";
  environment = development;
  status = ProposalStatus.tested;
  risk = RiskLevel.high;
  fingerprint = "#def sum";
  checks = record { name = "ast"; ok = false; level = error } ∷ [];
  trials = record { ok = true } ∷ [];
  decided_by = none;
  decision_note = none;
}

abbrev approved_tool : ChangeProposal
approved_tool = decided tested_tool ProposalStatus.approved "bia" "fine"

abbrev failed_tool : ChangeProposal
failed_tool = record tested_tool { status = ProposalStatus.failed; trials = [] }

abbrev bench : ChangeProposal → Bench
bench proposal = record { proposals = ("p1", proposal) ∷ []; files = []; events = [] }

approve_proposal-ok_example :
    (found : ChangeProposal) × (lookup "p1" (bench tested_tool).proposals ≡ some found)
    × (is_approvable found.status ≡ true)
    × ((is_tool found.kind ≡ false) ⊎ (tested_ok found ≡ true))
    × (approved_tool ≡ decided found ProposalStatus.approved "bia" "fine")
    × (lookup "p1" (bench approved_tool).proposals ≡ some approved_tool)
unfolding approve_proposal get_proposal lookup insert tested_ok last_trial
approve_proposal-ok_example =
    approve_proposal-ok "p1" "bia" "fine" (bench tested_tool)
      (approve_proposal "p1" "bia" "fine" (bench tested_tool)).1 approved_tool refl

apply-ok_example :
    (found : ChangeProposal) × (lookup "p1" (bench approved_tool).proposals ≡ some found)
    × (is_approved_proposal found.status ≡ true)
    × (found.fingerprint ≡ kit.fingerprint_of found.content)
    × (lookup found.target (apply kit "p1" "bia" (bench approved_tool)).1.files
        ≡ some (kit.with_lineage found))
    × (applied_proposal approved_tool ≡ applied_proposal found)
    × (lookup "p1" (apply kit "p1" "bia" (bench approved_tool)).1.proposals
        ≡ some (applied_proposal approved_tool))
unfolding apply get_proposal lookup insert content_matches_fingerprint concat
apply-ok_example =
    apply-ok kit "p1" "bia" (bench approved_tool) (apply kit "p1" "bia" (bench approved_tool)).1
      (applied_proposal approved_tool) refl

failed_checks_approved_example :
    (r : ChangeProposal) × (((trial kit "p1" "{}" >>= λ p. approve_proposal p.id "bia" "fine")
        (bench failed_tool)).0
      ≡ ok r)
    × (is_approved_proposal r.status ≡ true)
    × (proposal_errors r ≡ proposal_errors failed_tool)
unfolding lookup
failed_checks_approved_example =
    failed_checks_approved kit "p1" "{}" "bia" "fine" (bench failed_tool) failed_tool refl refl refl
      refl

reachable_proven_example :
    all_proven
      (approve_proposal "p1" "bia" "fine" (trial kit "p1" "{}" (bench failed_tool)).1).1.proposals
    ≡ true
reachable_proven_example =
    reachable_proven kit (bench failed_tool)
      (approve_proposal "p1" "bia" "fine" (trial kit "p1" "{}" (bench failed_tool)).1).1
      (then_step (then_step start (trying "p1" "{}")) (approving "p1" "bia" "fine")) refl
