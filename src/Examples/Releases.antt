-- ===== src/Examples/Releases.antt =====
-- A release of one agent, for src/egr/release/manager.py, with stand-ins for the hash functions.
use enterprise_agi_runtime.Prelude.{
  ◌≡◌, refl, true, false, none, some, [], ◌∷◌, contains, lookup, insert,
}
use enterprise_agi_runtime.Prelude.Text.{concat, remove_human, remove_human_from}
use enterprise_agi_runtime.Prelude.Sort.{sorted, insert_sorted}
use enterprise_agi_runtime.Domain.{development, staging, environment_name}
use enterprise_agi_runtime.Release.{
  agent, rank, Release, ReleaseItem, ReleaseStatus, ArtifactVersion, World, Site, clear, errors,
  vetoes, approvers, approvers_loop,
}
use enterprise_agi_runtime.Release.Signature.{manifest, manifest_hash}
use enterprise_agi_runtime.Release.Gates.{
  deployed_to, evidence_checks, ladder_checks, item_checks, items_checks, signature_checks,
  evaluate,
}
use enterprise_agi_runtime.Release.Versions.{
  path_for, version_at, current, save_version, content_of, next_version, add_version, renew,
  snapshot, set_environment, restore,
}
use enterprise_agi_runtime.Release.Manager.{
  get, evidence_of, evidence_ids, checked, check, counted, complete, authorize, closed, add_vote,
  settle, vote, approve,
}
use enterprise_agi_runtime.Release.Deployment.{
  deployed, verify_promotion, deploy_item, deploy_items, promote, deploy, rollback_item,
}
use enterprise_agi_runtime.Release.Quorum.{
  distinct, IsQuorate, approvers-distinct, approve-IsQuorate,
}
use enterprise_agi_runtime.Release.Deploy.{IsPromotable, deploy-IsPromotable}
use enterprise_agi_runtime.Release.Rollback.{applied, deploy_item-file, rollback_item-file}

abbrev site : Site
site = record {
  fingerprint_of = λ content. content;
  manifest_hash = λ m. concat ("manifest of " ∷ m.release ∷ []);
  hmac = λ key text. concat (key ∷ text ∷ []);
  decimal = λ n. "n";
  declared_version = λ kind content. "1";
  declared_environment = λ kind content. development;
  with_environment =
      λ content environment. concat (content ∷ " in " ∷ environment_name environment ∷ []);
  master_key = none;
  signature_environments = "production" ∷ [];
  min_approvals = 1;
  min_approvals_production = 2;
  approver_roles = [];
  allow_self_approval = false;
  identity_required = false;
  approval_min_role = "approver";
  allow_agent_approval = false;
  resolve = λ name. none;
  exists = λ kind name. true;
  current_version = λ kind name. "1";
  evaluations =
      record {
        id = "run1";
        target = "ana";
        target_kind = agent;
        passed = true;
        artifact_version = "1";
      }
      ∷ [];
  blocking_findings = λ kind name. 0;
}

abbrev item : ReleaseItem
item = record {
  kind = agent;
  name = "ana";
  version = "1";
  revision = 1;
  fingerprint = "ana v1";
  from_environment = development;
  to_environment = staging;
}

abbrev submitted : Release
submitted = record {
  id = "r1";
  items = item ∷ [];
  target = staging;
  status = ReleaseStatus.submitted;
  checks = [];
  evidence = [];
  created_by = "bia";
  decided_by = none;
  decision_note = none;
  rollback_of = none;
  approvals = [];
  signature = none;
  approved_manifest = none;
}

abbrev captured : ArtifactVersion
captured = record {
  kind = agent;
  name = "ana";
  revision = 1;
  version = "1";
  content = "ana v1";
  fingerprint = "ana v1";
  environment = development;
  created_by = "bia";
  release_id = none;
  note = "";
}

abbrev world : World
world = record {
  releases = ("r1", submitted) ∷ [];
  versions = captured ∷ [];
  files = ("agents/ana.yaml", "ana v1") ∷ [];
  trail = [];
}

abbrev approved : Release
approved = closed site (add_vote submitted "caio" [] "fine") "fine"

abbrev approved_world : World
approved_world = record world { releases = ("r1", approved) ∷ [] }

approvers-distinct_example :
    (distinct (approvers approved true) ≡ true)
    × (contains (remove_human "bia") (approvers approved true) ≡ false)
approvers-distinct_example = approvers-distinct approved true

approve-IsQuorate_example :
    IsQuorate site approved
    × (distinct (counted site approved) ≡ true)
    × (lookup approved.id (approve site "r1" "caio" none "fine" world).1.releases ≡ some approved)
unfolding get lookup authorize vote settle complete counted approvers approvers_loop vetoes approve
    remove_human remove_human_from
approve-IsQuorate_example =
    approve-IsQuorate site "r1" "caio" none "fine" world
      (approve site "r1" "caio" none "fine" world).1 approved refl refl

abbrev after_deploy : World
after_deploy = (deploy site "r1" "dan" approved_world).1

deploy-IsPromotable_example :
    (found : Release) × (lookup "r1" approved_world.releases ≡ some found)
    × IsPromotable site (checked site approved_world found)
    × (deployed (checked site approved_world approved)
        ≡ deployed (checked site approved_world found))
    × (lookup "r1" after_deploy.releases ≡ some (deployed (checked site approved_world approved)))
unfolding get lookup insert deploy check checked promote clear errors verify_promotion deploy_items
    deploy_item version_at path_for set_environment content_of snapshot current renew next_version
    add_version save_version evaluate signature_checks items_checks item_checks ladder_checks
    evidence_checks deployed_to rank evidence_ids evidence_of manifest_hash manifest concat
    environment_name sorted insert_sorted
deploy-IsPromotable_example =
    deploy-IsPromotable site "r1" "dan" approved_world after_deploy
      (deployed (checked site approved_world approved)) refl

deploy_item-file_example :
    (found : ArtifactVersion) × (version_at agent "ana" 1 world.versions ≡ some found)
    × (lookup (path_for agent "ana") (deploy_item site approved "dan" item world).1.files
        ≡ some (applied site agent found.content staging))
unfolding deploy_item lookup insert version_at path_for set_environment content_of snapshot current
    renew next_version add_version save_version concat environment_name
deploy_item-file_example =
    deploy_item-file site approved "dan" item world (deploy_item site approved "dan" item world).1
      refl

rollback_item-file_example :
    (found : ArtifactVersion) × (version_at agent "ana" 1 world.versions ≡ some found)
    × (lookup (path_for agent "ana") (rollback_item site "dan" item world).1.files
        ≡ some (applied site agent found.content development))
    × (1 ≡ found.revision)
unfolding rollback_item lookup insert version_at path_for set_environment content_of restore concat
    environment_name
rollback_item-file_example =
    rollback_item-file site "dan" item item world (rollback_item site "dan" item world).1 refl
