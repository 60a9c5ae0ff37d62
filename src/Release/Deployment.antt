-- ===== src/Release/Deployment.antt =====
-- Deploying and rolling back a release: `ReleaseManager.deploy` and `rollback` of
-- src/egr/release/manager.py.
use enterprise_agi_runtime.Prelude.{
  String, Bool, true, not, ◌||◌, none, some, List, [], ◌∷◌, ◌==◌, contains,
}
use enterprise_agi_runtime.Prelude.Exec.{
  Exec, config_error, not_found, wrong_state, gates_failed, content_changed, no_signature, pure,
  gets, guard, required, ◌>>=◌, ◌>>◌,
}
use enterprise_agi_runtime.Prelude.Text.{concat}
use enterprise_agi_runtime.Domain.{environment_name}
use enterprise_agi_runtime.Release.{
  Release, ReleaseItem, ReleaseStatus, World, Site, release_deployed, release_rolled_back, clear,
}
use enterprise_agi_runtime.Release.Signature.{manifest_hash, verify}
use enterprise_agi_runtime.Release.Versions.{
  log, version_at, path_for, write_file, snapshot, set_environment, restore,
}
use enterprise_agi_runtime.Release.Manager.{get, save, check, is_approved, is_deployed}

abbrev pub deployed : Release → Release
deployed release = record release { status = ReleaseStatus.deployed }

module _ (site : Site) where
  -- ---- deploy

  -- `not approved or approved == manifest_hash(release)`
  abbrev pub unchanged : Release → Bool
  unchanged release = elim release.approved_manifest [
    | none ↦ true
    | some approved ↦ (approved == "") || (approved == manifest_hash site release)
  ]

  -- `_verify_promotion`
  unfoldable pub verify_promotion : Release → Exec World (Unit {0})
  verify_promotion release = do
    guard (unchanged release) (config_error content_changed)
    guard
        (not (contains (environment_name release.target) site.signature_environments)
          || verify site release)
        (config_error no_signature)

  -- The body of the loop of `deploy` over the items.
  unfoldable pub deploy_item : Release → String → ReleaseItem → Exec World (Unit {0})
  deploy_item release actor item = do
    versions ← gets (λ w. w.versions)
    found ←
        required (config_error not_found) (version_at item.kind item.name item.revision versions)
    write_file (path_for item.kind item.name) found.content
    set_environment site item.kind item.name release.target actor
    snapshot site item.kind item.name actor
        (concat ("aplicado em " ∷ environment_name release.target ∷ [])) (some release.id)
    pure tt

  unfoldable pub deploy_items : Release → String → List ReleaseItem → Exec World (Unit {0})
  deploy_items release actor [] = pure tt
  deploy_items release actor (item ∷ items) = do
    deploy_item release actor item
    deploy_items release actor items

  -- The rest of `deploy`, with the checked release.
  unfoldable pub promote : Release → String → Exec World Release
  promote release actor = do
    guard (is_approved release.status) (config_error wrong_state)
    guard (clear release) (config_error gates_failed)
    verify_promotion release
    deploy_items release actor release.items
    save (deployed release)
    log release_deployed actor release.id
    pure (deployed release)

  -- `deploy`
  unfoldable pub deploy : String → String → Exec World Release
  deploy release_id actor = do release ← check site release_id; promote release actor

  -- ---- rollback

  -- The body of the loop of `rollback` over the items.
  unfoldable pub rollback_item : String → ReleaseItem → Exec World ReleaseItem
  rollback_item actor item = do
    versions ← gets (λ w. w.versions)
    captured ←
        required (config_error not_found) (version_at item.kind item.name item.revision versions)
    restore site item.kind item.name captured.revision actor
    set_environment site item.kind item.name item.from_environment actor
    pure (record item { version = captured.version; revision = captured.revision })

  unfoldable pub rollback_items : String → List ReleaseItem → Exec World (List ReleaseItem)
  rollback_items actor [] = pure []
  rollback_items actor (item ∷ items) = do
    first ← rollback_item actor item
    rest ← rollback_items actor items
    pure (first ∷ rest)

  -- `rollback`, with the id of the new release. The two releases share their items.
  unfoldable pub rollback : String → String → String → String → Exec World Release
  rollback new_id release_id actor note = do
    original ← get release_id
    guard (is_deployed original.status) (config_error wrong_state)
    items ← rollback_items actor original.items
    let reversal : Release = record {
      id = new_id;
      items = items;
      target = original.target;
      status = ReleaseStatus.rolled_back;
      checks = [];
      evidence = [];
      created_by = actor;
      decided_by = some actor;
      decision_note = none;
      rollback_of = some original.id;
      approvals = [];
      signature = none;
      approved_manifest = none;
    }
    save reversal
    save (record original { items = items; status = ReleaseStatus.rolled_back })
    log release_rolled_back actor original.id
    pure reversal
