-- ===== src/Release/Rollback.antt =====
-- What deploying and rolling back leave in the workspace: the loops over the items in
-- `ReleaseManager.deploy` and `rollback` of src/egr/release/manager.py.
use enterprise_agi_runtime.Prelude.{
  eqb, eqb→eq, &&-right, ℕ, String, ◌≡◌, ap, ◌∙◌, inl, inr, ◌&&◌, Option, none, some, List, [], ◌∷◌,
  arith, ◌==◌, lookup, lookup-insert_self, if◌then◌else◌, Bool-cases,
}
use enterprise_agi_runtime.Prelude.Exec.{ok, bind-ok, required-ok, config_error, not_found}
use mathlib.Core.Path.{subst}
use enterprise_agi_runtime.Prelude.Text.{concat}
use enterprise_agi_runtime.Domain.{Environment, environment_name}
use enterprise_agi_runtime.Release.{
  Kind, tool, eq_kind, Release, ReleaseItem, ArtifactVersion, World, Site,
}
use enterprise_agi_runtime.Release.Versions.{
  version_at, path_for, snapshot, set_environment, restore, content_of, current, add_version,
  is_version, renew, next_version,
}
use enterprise_agi_runtime.Release.Deployment.{deploy_item, rollback_item}

version_at-revision :
    (kind : Kind) (name : String) (revision : ℕ) (versions : List ArtifactVersion)
    (found : ArtifactVersion)
    → version_at kind name revision versions ≡ some found
    → found.revision ≡ revision
unfolding version_at
version_at-revision kind name revision [] found h = absurd (cc)
version_at-revision kind name revision (x ∷ versions) found h =
    elim (Bool-cases (is_version kind name x && eqb x.revision revision)) [
      | inl e ↦
          let same : x ≡ found = ground arith in
          subst (λ v. v.revision ≡ revision) same
            (eqb→eq x.revision revision (&&-right (is_version kind name x) _ e))
      | inr e ↦ version_at-revision kind name revision versions found (ground arith)
    ]

version_at-same :
    (kind : Kind) (name : String) (revision : ℕ) (versions : List ArtifactVersion)
    (found : ArtifactVersion)
    → version_at kind name revision versions ≡ some found
    → version_at kind name found.revision versions ≡ some found
version_at-same kind name revision versions found h =
    ap (λ r. version_at kind name r versions)
      (version_at-revision kind name revision versions found h)
    ∙ h

module _ (site : Site) where
  -- The content that an environment gives to a content of an artifact.
  abbrev pub applied : Kind → String → Environment → String
  applied kind content environment =
      if eq_kind kind tool then content else site.with_environment content environment

  set_environment-file :
      (kind : Kind) (name : String) (environment : Environment) (actor content : String)
      (w v : World)
      → lookup (path_for kind name) w.files ≡ some content
      → set_environment site kind name environment actor w ≡ (ok tt, v)
      → lookup (path_for kind name) v.files ≡ some (applied kind content environment)
  unfolding set_environment content_of
  set_environment-file kind name environment actor content w v c h =
      elim (Bool-cases (eq_kind kind tool)) [
        | inl e ↦ ground arith
        | inr e ↦ ground (
          arith,
          lookup-insert_self (path_for kind name) (site.with_environment content environment)
              w.files,
        )
      ]

  add_version-files :
      (x y : ArtifactVersion) (actor : String) (w v : World)
      → add_version site x actor w ≡ (ok y, v)
      → w.files ≡ v.files
  unfolding add_version
  add_version-files x y actor w v h = ground arith

  renew-files :
      (kind : Kind) (name content actor note : String) (release_id : Option String)
      (last : Option ArtifactVersion) (w v : World) (x : ArtifactVersion)
      → renew site kind name content actor note release_id last w ≡ (ok x, v)
      → w.files ≡ v.files
  unfolding renew
  renew-files kind name content actor note release_id none w v x h =
      add_version-files _ x actor w v h
  renew-files kind name content actor note release_id (some last) w v x h =
      elim (Bool-cases (last.fingerprint == site.fingerprint_of content)) [
        | inl e ↦ ground arith
        | inr e ↦
            add_version-files
              (next_version site kind name content actor note release_id (some last)) x actor w v
              (ground arith)
      ]

  snapshot-files :
      (kind : Kind) (name actor note : String) (release_id : Option String) (w v : World)
      (x : ArtifactVersion)
      → snapshot site kind name actor note release_id w ≡ (ok x, v)
      → w.files ≡ v.files
  unfolding snapshot content_of
  snapshot-files kind name actor note release_id w v x h =
      let (content, e, h1) =
        required-ok (config_error not_found) (lookup (path_for kind name) w.files) _ h in
      renew-files kind name content actor note release_id (current kind name w.versions) w v x h1

  -- When the loop of `deploy` has applied an item, the workspace file of the artifact holds the content of the
  -- version that the item names, declared for the target environment.
  pub deploy_item-file :
      (release : Release) (actor : String) (item : ReleaseItem) (w v : World)
      → deploy_item site release actor item w ≡ (ok tt, v)
      → (found : ArtifactVersion) × (version_at item.kind item.name item.revision w.versions
          ≡ some found)
        × (lookup (path_for item.kind item.name) v.files
            ≡ some (applied item.kind found.content release.target))
  unfolding deploy_item
  deploy_item-file release actor item w v h =
      let note = concat ("aplicado em " ∷ environment_name release.target ∷ []) in
      let (found, named, h1) =
        required-ok (config_error not_found)
          (version_at item.kind item.name item.revision w.versions) _ h in
      let (u, t, set, h2) =
        bind-ok (set_environment site item.kind item.name release.target actor) h1 in
      let (x, t1, taken, h3) =
        bind-ok (snapshot site item.kind item.name actor note (some release.id)) h2 in
      let file =
        set_environment-file item.kind item.name release.target actor found.content _ t
          (lookup-insert_self (path_for item.kind item.name) found.content w.files) set in
      let same = snapshot-files item.kind item.name actor note (some release.id) t t1 x taken in
      (found, named, ground arith)

  restore-file :
      (kind : Kind) (name : String) (revision : ℕ) (actor : String) (found : ArtifactVersion)
      (w v : World) (x : ArtifactVersion)
      → version_at kind name revision w.versions ≡ some found
      → restore site kind name revision actor w ≡ (ok x, v)
      → lookup (path_for kind name) v.files ≡ some found.content
  unfolding restore
  restore-file kind name revision actor found w v x n h =
      ground (arith, lookup-insert_self (path_for kind name) found.content w.files)

  -- When the loop of `rollback` has undone an item, the workspace file of the artifact holds the
  -- content of the very version that the item names (the one that `deploy` applies),
  -- declared for the environment that the item came from; and the item keeps its revision.
  pub rollback_item-file :
      (actor : String) (item back : ReleaseItem) (w v : World)
      → rollback_item site actor item w ≡ (ok back, v)
      → (found : ArtifactVersion) × (version_at item.kind item.name item.revision w.versions
          ≡ some found)
        × (lookup (path_for item.kind item.name) v.files
            ≡ some (applied item.kind found.content item.from_environment))
        × (back.revision ≡ found.revision)
  unfolding rollback_item restore
  rollback_item-file actor item back w v h =
      let (found, named, h1) =
        required-ok (config_error not_found)
          (version_at item.kind item.name item.revision w.versions) _ h in
      let (u, t, restored, h2) =
        bind-ok (restore site item.kind item.name found.revision actor) h1 in
      let (u1, t1, set, h3) =
        bind-ok (set_environment site item.kind item.name item.from_environment actor) h2 in
      let file =
        set_environment-file item.kind item.name item.from_environment actor found.content t t1
          (restore-file item.kind item.name found.revision actor found w t u
            (version_at-same item.kind item.name item.revision w.versions found named) restored)
          set in
      (found, named, ground arith, ground arith)
