-- ===== src/Release/Versions.antt =====
-- Versions of artifacts: `VersionStore` of src/egr/release/versions.py. Reloading the runtime
-- after a write changes no state that is modelled and is left out; so are the checks of path
-- escapes. `versions` reads the latest hundred revisions of an artifact; here they are all read.
use enterprise_agi_runtime.Prelude.{
  ℕ, ◌+◌, String, Bool, Option, none, some, List, [], ◌∷◌, ◌++◌, ◌==◌, ◌&&◌, eqb, leb, find, lookup,
  insert, if◌then◌else◌,
}
use enterprise_agi_runtime.Prelude.Exec.{
  Exec, config_error, not_found, pure, gets, required, modify, ◌>>=◌, ◌>>◌,
}
use enterprise_agi_runtime.Prelude.Text.{concat, before_dot}
use enterprise_agi_runtime.Domain.{Environment}
use enterprise_agi_runtime.Release.{
  Kind, agent, tool, workflow, policy, eq_kind, ArtifactVersion, EventType, artifact_versioned,
  release_deployed, World, Site,
}

-- `Workbench.target_for`
unfoldable pub path_for : Kind → String → String
path_for agent name = concat ("agents/" ∷ name ∷ ".yaml" ∷ [])
path_for workflow name = concat ("workflows/" ∷ name ∷ ".yaml" ∷ [])
path_for policy name = concat ("policies/" ∷ name ∷ ".yaml" ∷ [])
path_for tool name = concat ("tools/" ∷ before_dot name ∷ ".py" ∷ [])

abbrev pub is_version : Kind → String → ArtifactVersion → Bool
is_version kind name v = eq_kind v.kind kind && v.name == name

-- `runtime.versions.get(f"{kind}:{name}@{revision}")`
unfoldable pub version_at : Kind → String → ℕ → List ArtifactVersion → Option ArtifactVersion
version_at kind name revision versions =
    find (λ v. is_version kind name v && eqb v.revision revision) versions

-- The first element of `versions(kind, name)`, which are sorted by falling revision.
unfoldable pub current : Kind → String → List ArtifactVersion → Option ArtifactVersion
current kind name [] = none
current kind name (v ∷ versions) =
    let rest = current kind name versions in
    if is_version kind name v
    then elim rest [ none ↦ some v | some w ↦ if leb w.revision v.revision then some v else some w ]
    else rest

-- `runtime.versions.save`: an id that is there is overwritten.
unfoldable pub save_version : ArtifactVersion → List ArtifactVersion → List ArtifactVersion
save_version v [] = v ∷ []
save_version v (w ∷ versions) =
    if is_version v.kind v.name w && eqb w.revision v.revision
    then v ∷ versions
    else w ∷ save_version v versions

abbrev pub log : EventType → String → String → Exec World (Unit {0})
log type actor subject = modify (λ w. record w {
  trail = w.trail ++ record { type = type; actor = actor; subject = subject } ∷ [];
})

abbrev pub write_file : String → String → Exec World (Unit {0})
write_file path content = modify (λ w. record w { files = insert path content w.files })

-- `content_of`
unfoldable pub content_of : Kind → String → Exec World String
content_of kind name w = required (config_error not_found) (lookup (path_for kind name) w.files) w

module _ (site : Site) where
  -- The version that `snapshot` makes of a content, after the last one.
  unfoldable pub next_version :
      Kind
      → String
      → String
      → String
      → String
      → Option String
      → Option ArtifactVersion
      → ArtifactVersion
  next_version kind name content actor note release_id last =
      let revision : ℕ = elim last [ none ↦ 1 | some v ↦ v.revision + 1 ] in
      record {
        kind = kind;
        name = name;
        revision = revision;
        version =
            if site.declared_version kind content == ""
            then concat ("r" ∷ site.decimal revision ∷ [])
            else site.declared_version kind content;
        content = content;
        fingerprint = site.fingerprint_of content;
        environment = site.declared_environment kind content;
        created_by = actor;
        release_id = release_id;
        note = note;
      }

  unfoldable pub add_version : ArtifactVersion → String → Exec World ArtifactVersion
  add_version v actor = do
    modify (λ w. record w { versions = save_version v w.versions })
    log artifact_versioned actor v.name
    pure v

  -- The rest of `snapshot`, with the last version: one is made only of a content that has changed.
  unfoldable pub renew :
      Kind
      → String
      → String
      → String
      → String
      → Option String
      → Option ArtifactVersion
      → Exec World ArtifactVersion
  renew kind name content actor note release_id none =
      add_version (next_version kind name content actor note release_id none) actor
  renew kind name content actor note release_id (some last) =
      if last.fingerprint == site.fingerprint_of content
      then pure last
      else add_version (next_version kind name content actor note release_id (some last)) actor

  -- `snapshot`
  unfoldable pub snapshot :
      Kind → String → String → String → Option String → Exec World ArtifactVersion
  snapshot kind name actor note release_id = do
    content ← content_of kind name
    last ← gets (λ w. current kind name w.versions)
    renew kind name content actor note release_id last

  -- `set_environment`: a tool declares none.
  unfoldable pub set_environment : Kind → String → Environment → String → Exec World (Unit {0})
  set_environment kind name environment actor = do
    content ← content_of kind name
    if eq_kind kind tool then pure tt else do
      write_file (path_for kind name) (site.with_environment content environment)
      log release_deployed actor name

  -- `restore`
  unfoldable pub restore : Kind → String → ℕ → String → Exec World ArtifactVersion
  restore kind name revision actor = do
    versions ← gets (λ w. w.versions)
    target ← required (config_error not_found) (version_at kind name revision versions)
    write_file (path_for kind name) target.content
    log artifact_versioned actor name
    pure target
