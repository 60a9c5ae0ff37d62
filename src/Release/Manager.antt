-- ===== src/Release/Manager.antt =====
-- The life of a release: `ReleaseManager` of src/egr/release/manager.py. A method is an action on the
-- world; what it has written before it raises stays written.
use enterprise_agi_runtime.Prelude.{
  ℕ, String, Bool, true, false, not, ◌&&◌, ◌||◌, Option, none, some, List, [], ◌∷◌, ◌++◌, ◌==◌, any,
  find, keep, take, length, leb, ltb, is_empty, contains, intersects, values, lookup, insert,
  if◌then◌else◌,
}
use mathlib.Core.List.{reverse}
use enterprise_agi_runtime.Prelude.Exec.{
  Exec, config_error, authentication_error, key_store_error, authorization_error, not_found,
  wrong_state, gates_failed, already_voted, pure, gets, guard, required, modify, ◌>>=◌, ◌>>◌,
}
use enterprise_agi_runtime.Prelude.Sort.{sorted, text_lt}
use enterprise_agi_runtime.Prelude.Text.{remove_human, comma_join}
use enterprise_agi_runtime.Domain.{staging}
use enterprise_agi_runtime.Security.Rbac.{
  Principal, has_permission, role_satisfies, release_promote,
}
use enterprise_agi_runtime.Release.{
  eq_kind, Release, ReleaseItem, ReleaseApproval, ReleaseStatus, EvaluationRun, World, Site,
  release_submitted, release_created, release_approval_recorded, release_approved, release_signed,
  release_rejected, clear, vetoes, approvers, is_production,
}
use enterprise_agi_runtime.Release.Gates.{evaluate}
use enterprise_agi_runtime.Release.Signature.{manifest_hash, signature_of}
use enterprise_agi_runtime.Release.Versions.{log}

-- `get`
unfoldable pub get : String → Exec World Release
get release_id w = required (config_error not_found) (lookup release_id w.releases) w

-- `_save`
abbrev pub save : Release → Exec World (Unit {0})
save release = modify (λ w. record w { releases = insert release.id release w.releases })

abbrev pub is_submittable : ReleaseStatus → Bool
is_submittable ReleaseStatus.draft = true
is_submittable ReleaseStatus.failed = true
is_submittable _ = false

abbrev pub is_submitted : ReleaseStatus → Bool
is_submitted ReleaseStatus.submitted = true
is_submitted _ = false

abbrev pub is_approved : ReleaseStatus → Bool
is_approved ReleaseStatus.approved = true
is_approved _ = false

abbrev pub is_deployed : ReleaseStatus → Bool
is_deployed ReleaseStatus.deployed = true
is_deployed _ = false

abbrev pub is_signable : ReleaseStatus → Bool
is_signable ReleaseStatus.draft = false
is_signable ReleaseStatus.rejected = false
is_signable ReleaseStatus.rolled_back = false
is_signable _ = true

abbrev pub is_rejectable : ReleaseStatus → Bool
is_rejectable ReleaseStatus.deployed = false
is_rejectable ReleaseStatus.rolled_back = false
is_rejectable _ = true

abbrev pub voter_of : String → String
voter_of decisor = if remove_human decisor == "" then decisor else remove_human decisor

abbrev pub has_voted : Release → String → Bool
has_voted release voter = any (λ (item : ReleaseApproval). item.actor == voter) release.approvals

abbrev pub roles_of : Option Principal → List String
roles_of none = []
roles_of (some principal) = sorted text_lt principal.roles

abbrev pub add_vote : Release → String → List String → String → Release
add_vote release voter roles note = record release {
  approvals =
      release.approvals
      ++ record { actor = voter; approved = true; roles = roles; note = note } ∷ [];
}

-- `decision_note = note or None`
abbrev pub note_or_none : String → Option String
note_or_none note = if note == "" then none else some note

module _ (site : Site) where
  -- The first passed run of the item's latest twenty.
  unfoldable pub evidence_of : ReleaseItem → Option EvaluationRun
  evidence_of item =
      find (λ (run : EvaluationRun). eq_kind run.target_kind item.kind && run.passed)
        (take 20 (keep (λ (run : EvaluationRun). run.target == item.name) site.evaluations))

  -- `_evidence_ids`
  unfoldable pub evidence_ids : List ReleaseItem → List String → List String
  evidence_ids [] ids = ids
  evidence_ids (item ∷ items) ids = evidence_ids items (elim (evidence_of item) [
    | none ↦ ids
    | some run ↦ if contains run.id ids then ids else ids ++ run.id ∷ []
  ])

  -- What `check` puts into a release.
  unfoldable pub checked : World → Release → Release
  checked w release = record release {
    checks = evaluate site (reverse (values w.releases)) release;
    evidence = evidence_ids release.items [];
  }

  -- `check`
  unfoldable pub check : String → Exec World Release
  check release_id = do
    found ← get release_id
    release ← gets (λ w. checked w found)
    save release
    log (if clear release then release_submitted else release_created) release.created_by release.id
    pure release

  -- `submit`
  unfoldable pub submit : String → String → Exec World Release
  submit release_id actor = do
    release ← check release_id
    guard (is_submittable release.status) (config_error wrong_state)
    guard (clear release) (config_error gates_failed)
    let saved = record release { status = ReleaseStatus.submitted }
    save saved
    log release_submitted actor saved.id
    pure saved

  -- ---- quorum

  abbrev pub votes_required : Release → ℕ
  votes_required release =
      if is_production release then site.min_approvals_production else site.min_approvals

  -- The voters that `quorum` counts.
  unfoldable pub counted : Release → List String
  counted release =
      approvers release (ltb 1 (votes_required release) && not site.allow_self_approval)

  -- `quorum(release)["completo"]`
  unfoldable pub complete : Release → Bool
  complete release =
      leb (votes_required release) (length (counted release)) && is_empty (vetoes release)

  -- `_authorize`, from the principal that the actor or the token resolves to
  unfoldable pub authorize : Release → String → Option Principal → Exec World String
  authorize release actor found =
      if not site.identity_required
      then elim found [
        | none ↦ pure (if actor == "" then "human" else actor)
        | some principal ↦ pure principal.id
      ]
      else do
        principal ← required authentication_error found
        guard (has_permission principal.roles release_promote) authorization_error
        guard (site.allow_agent_approval || not principal.agent_kind) authorization_error
        guard
            (role_satisfies principal.roles
              (some (elim release.target [ staging ↦ "operator" | _ ↦ site.approval_min_role ])))
            authorization_error
        pure principal.id

  -- `self.runtime.identity.resolve(token) if token else …resolve(name)`
  abbrev pub resolve : Option String → String → Option Principal
  resolve none name = site.resolve name
  resolve (some token) name = if token == "" then site.resolve name else site.resolve token

  abbrev pub closed : Release → String → Release
  closed release note = record release {
    approved_manifest = some (manifest_hash site release);
    status = ReleaseStatus.approved;
    decided_by = some (comma_join (counted release));
    decision_note = note_or_none note;
  }

  -- The end of `approve`, after the vote.
  unfoldable pub settle : Release → String → String → Exec World Release
  settle release decisor note =
      if complete release
      then (do
        save (closed release note)
        log release_approved decisor release.id
        pure (closed release note))
      else (do save release; pure release)

  abbrev pub may_vote : List String → Bool
  may_vote roles =
      is_empty site.approver_roles || is_empty roles || intersects roles site.approver_roles

  -- The rest of `approve`, with who decides.
  unfoldable pub vote : Release → String → Option String → String → Exec World Release
  vote release decisor token note = do
    guard (not (has_voted release (voter_of decisor))) (config_error already_voted)
    let roles = roles_of (resolve token (remove_human decisor))
    guard (may_vote roles) authorization_error
    log release_approval_recorded decisor release.id
    settle (add_vote release (voter_of decisor) roles note) decisor note

  -- `approve`
  unfoldable pub approve : String → String → Option String → String → Exec World Release
  approve release_id actor token note = do
    release ← get release_id
    guard (is_submitted release.status) (config_error wrong_state)
    decisor ← authorize release actor (resolve token (remove_human actor))
    vote release decisor token note

  -- ---- signature

  -- `sign`
  unfoldable pub sign : String → String → Exec World Release
  sign release_id actor = do
    release ← get release_id
    guard (is_signable release.status) (config_error wrong_state)
    key ← required key_store_error site.master_key
    let signed = record release { signature = some (signature_of site key release actor) }
    log release_signed actor release.id
    save signed
    pure signed

  -- `reject`
  unfoldable pub reject : String → String → String → Exec World Release
  reject release_id actor note = do
    release ← get release_id
    guard (is_rejectable release.status) (config_error wrong_state)
    let rejected = record release {
      approvals =
          release.approvals
          ++ record { actor = remove_human actor; approved = false; roles = []; note = note } ∷ [];
      status = ReleaseStatus.rejected;
      decided_by = some actor;
      decision_note = note_or_none note;
    }
    save rejected
    log release_rejected actor release.id
    pure rejected
