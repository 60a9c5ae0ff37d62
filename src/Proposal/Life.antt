-- ===== src/Proposal/Life.antt =====
-- The reachable states of the workbench of src/egr/dev/workbench.py.
use enterprise_agi_runtime.Prelude.{
  String, ◌≡◌, inl, inr, Bool, true, not, ◌&&◌, ◌||◌, Option-cases, Bool-cases, some, [], ◌∷◌, ◌++◌,
  arith, ◌==◌, lookup, insert, Dict,
}
use enterprise_agi_runtime.Prelude.Exec.{Exec}
use mathlib.Core.Path.{subst}
use enterprise_agi_runtime.Domain.{Environment}
use enterprise_agi_runtime.Proposal.{
  created, ProposalKind, ProposalStatus, ChangeProposal, tested_ok, Bench, Kit,
}
use enterprise_agi_runtime.Proposal.Workbench.{
  new_proposal, is_tool, is_applied, is_approved_proposal, get_proposal, decided,
  validated_proposal, validate, propose, approve_proposal, reject_proposal, tried, trial,
  applied_proposal, apply,
}

-- A tool that is approved or applied has passed its last run in the sandbox.
abbrev pub proven : ChangeProposal → Bool
proven p =
    not (is_tool p.kind)
    || not (is_approved_proposal p.status || is_applied p.status)
    || tested_ok p

abbrev pub all_proven : Dict ChangeProposal → Bool
all_proven [] = true
all_proven ((k, p) ∷ d) = proven p && all_proven d

all_proven-insert :
    (k : String) (p : ChangeProposal) (d : Dict ChangeProposal)
    → all_proven d ≡ true
    → proven p ≡ true
    → all_proven (insert k p d) ≡ true
unfolding insert
all_proven-insert k p [] h q = ground arith
all_proven-insert k p ((j, r) ∷ d) h q = ground (arith, all_proven-insert k p d)

proven-lookup :
    (k : String) (p : ChangeProposal) (d : Dict ChangeProposal)
    → all_proven d ≡ true
    → lookup k d ≡ some p
    → proven p ≡ true
unfolding lookup
proven-lookup k p [] h e = absurd (cc)
proven-lookup k p ((j, r) ∷ d) h e = elim (Bool-cases (j == k)) [
  | inl same ↦ let q : r ≡ p = ground arith in subst (λ x. proven x ≡ true) q (ground arith)
  | inr other ↦ proven-lookup k p d (ground arith) (ground arith)
]

abbrev pub Keeps : Exec Bench ChangeProposal → Type 0
Keeps m = (b : Bench) → all_proven b.proposals ≡ true → all_proven (m b).1.proposals ≡ true

approve_proposal-Keeps :
    (proposal_id actor note : String) → Keeps (approve_proposal proposal_id actor note)
unfolding approve_proposal get_proposal tested_ok
approve_proposal-Keeps proposal_id actor note b h =
    elim (Option-cases (lookup proposal_id b.proposals)) [
      | inl e ↦ ground arith
      | inr (found, e) ↦ ground (
        arith,
        all_proven-insert found.id (decided found ProposalStatus.approved actor note) b.proposals h,
      )
    ]

reject_proposal-Keeps :
    (proposal_id actor note : String) → Keeps (reject_proposal proposal_id actor note)
unfolding reject_proposal get_proposal
reject_proposal-Keeps proposal_id actor note b h =
    elim (Option-cases (lookup proposal_id b.proposals)) [
      | inl e ↦ ground arith
      | inr (found, e) ↦ ground (
        arith,
        all_proven-insert found.id (decided found ProposalStatus.rejected actor note) b.proposals h,
      )
    ]

module _ (kit : Kit) where
  validate-Keeps : (proposal_id : String) → Keeps (validate kit proposal_id)
  unfolding validate get_proposal validated_proposal
  validate-Keeps proposal_id b h = elim (Option-cases (lookup proposal_id b.proposals)) [
    | inl e ↦ ground arith
    | inr (found, e) ↦
        ground (arith, all_proven-insert found.id (validated_proposal kit found) b.proposals h)
  ]

  trial-Keeps : (proposal_id args : String) → Keeps (trial kit proposal_id args)
  unfolding trial get_proposal
  trial-Keeps proposal_id args b h = elim (Option-cases (lookup proposal_id b.proposals)) [
    | inl e ↦ ground arith
    | inr (found, e) ↦
        ground
          (arith, all_proven-insert found.id (tried found (kit.run_trial found args)) b.proposals h)
  ]

  apply-Keeps : (proposal_id actor : String) → Keeps (apply kit proposal_id actor)
  unfolding apply get_proposal tested_ok
  apply-Keeps proposal_id actor b h = elim (Option-cases (lookup proposal_id b.proposals)) [
    | inl e ↦ ground arith
    | inr (found, e) ↦ ground (
      arith,
      proven-lookup proposal_id found b.proposals h e,
      all_proven-insert found.id (applied_proposal found) b.proposals h,
    )
  ]

  propose-Keeps :
      (new_id : String) (kind : ProposalKind) (name content origin : String)
      (environment : Environment) (auto_validate : Bool)
      → Keeps (propose kit new_id kind name content origin environment auto_validate)
  unfolding propose new_proposal
  propose-Keeps new_id kind name content origin environment auto_validate b h =
      let fresh = new_proposal kit new_id kind name content origin environment in
      let saved = all_proven-insert new_id fresh b.proposals h (ground arith) in
      let made : Bench = record b {
        proposals = insert new_id fresh b.proposals;
        events = b.events ++ (created, origin, new_id) ∷ [];
      } in
      ground (arith, saved, validate-Keeps new_id made saved)

  -- One call of the workbench, whether it returns or raises.
  pub data Step (b : Bench) : Bench → Type 0 where
    proposing :
        (new_id : String) (kind : ProposalKind) (name content origin : String)
        (environment : Environment) (auto_validate : Bool)
        → Step b (propose kit new_id kind name content origin environment auto_validate b).1
    validating : (proposal_id : String) → Step b (validate kit proposal_id b).1
    trying : (proposal_id args : String) → Step b (trial kit proposal_id args b).1
    approving :
        (proposal_id actor note : String) → Step b (approve_proposal proposal_id actor note b).1
    rejecting :
        (proposal_id actor note : String) → Step b (reject_proposal proposal_id actor note b).1
    applying : (proposal_id actor : String) → Step b (apply kit proposal_id actor b).1

  -- The states that calls lead to from a state.
  pub data Reaches (b : Bench) : Bench → Type 0 where
    start : Reaches b b
    then_step : {c d : Bench} → Reaches b c → Step c d → Reaches b d

  Step-keeps :
      (b c : Bench) → Step b c → all_proven b.proposals ≡ true → all_proven c.proposals ≡ true
  Step-keeps b _ (proposing i k n c o e a) h = propose-Keeps i k n c o e a b h
  Step-keeps b _ (validating i) h = validate-Keeps i b h
  Step-keeps b _ (trying i args) h = trial-Keeps i args b h
  Step-keeps b _ (approving i actor note) h = approve_proposal-Keeps i actor note b h
  Step-keeps b _ (rejecting i actor note) h = reject_proposal-Keeps i actor note b h
  Step-keeps b _ (applying i actor) h = apply-Keeps i actor b h

  -- From a state in which every approved or applied tool has passed its last run in the sandbox, no
  -- sequence of calls of the workbench, with any results or errors, leads to another.
  pub reachable_proven :
      (b c : Bench) → Reaches b c → all_proven b.proposals ≡ true → all_proven c.proposals ≡ true
  reachable_proven b _ start h = h
  reachable_proven b d (then_step {c} r s) h = Step-keeps c d s (reachable_proven b c r h)
