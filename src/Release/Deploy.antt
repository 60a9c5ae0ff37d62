-- ===== src/Release/Deploy.antt =====
-- What a deployment asks for: `ReleaseManager.deploy` of src/egr/release/manager.py.
use enterprise_agi_runtime.Prelude.{
  Option, none, false, ◌==◌, ◌||◌, Bool-cases, ◌⊎◌, Option-cases, String, ◌≡◌, inl, inr, true, not,
  ◌||◌, some, arith, eq_iff, contains, lookup, insert, lookup-insert_self,
}
use enterprise_agi_runtime.Prelude.Exec.{
  ◌>>◌, pure, ok, bind-ok, guard-ok, guard-end, config_error, wrong_state, gates_failed,
  content_changed, no_signature,
}
use enterprise_agi_runtime.Domain.{environment_name}
use enterprise_agi_runtime.Release.Versions.{log}
use enterprise_agi_runtime.Release.{release_deployed, Release, World, Site, clear}
use mathlib.Core.Path.{subst}
use enterprise_agi_runtime.Release.Signature.{manifest_hash, verify}
use enterprise_agi_runtime.Release.Manager.{save, get, check, checked, is_approved}
use enterprise_agi_runtime.Release.Deployment.{
  unchanged, verify_promotion, deploy_items, promote, deployed, deploy,
}

get-ok :
    (release_id : String) (w v : World) (release : Release)
    → get release_id w ≡ (ok release, v)
    → (lookup release_id w.releases ≡ some release) × (w ≡ v)
unfolding get
get-ok release_id w v release h = elim (Option-cases (lookup release_id w.releases)) [
  | inl e ↦ absurd (ground arith)
  | inr (a, e) ↦ (ground arith, ground arith)
]

-- The approval kept no manifest hash, or the one that the release has.
abbrev pub IsUnchanged : Option String → String → Type 0
IsUnchanged none current = Unit
IsUnchanged (some hash) current = (hash ≡ "") ⊎ (hash ≡ current)

IsUnchanged-same :
    (kept : Option String) (current : String)
    → (elim kept [ none ↦ true | some hash ↦ (hash == "") || (hash == current) ]) ≡ true
    → IsUnchanged kept current
IsUnchanged-same none current h = tt
IsUnchanged-same (some hash) current h = elim (Bool-cases (hash == "")) [
  | inl e ↦ inl ((eq_iff hash "").0 e)
  | inr e ↦ inr ((eq_iff hash current).0 (ground arith))
]

module _ (site : Site) where
  check-ok :
      (release_id : String) (w v : World) (release : Release)
      → check site release_id w ≡ (ok release, v)
      → (found : Release) × (lookup release_id w.releases ≡ some found)
        × (release ≡ checked site w found)
  unfolding check
  check-ok release_id w v release h =
      let (found, t, e, h1) = bind-ok (get release_id) h in
      let (stored, same) = get-ok release_id w t found e in
      let made : checked site t found ≡ release = ground arith in (found, stored, cc)

  -- The conditions of a promotion.
  abbrev pub IsPromotable : Release → Type 0
  IsPromotable release =
      (is_approved release.status ≡ true)
      × (clear release ≡ true)
      × IsUnchanged release.approved_manifest (manifest_hash site release)
      × ((contains (environment_name release.target) site.signature_environments ≡ false)
          ⊎ (verify site release ≡ true))

  verify_promotion-ok :
      (release : Release) (w v : World)
      → verify_promotion site release w ≡ (ok tt, v)
      → IsUnchanged release.approved_manifest (manifest_hash site release)
        × ((contains (environment_name release.target) site.signature_environments ≡ false)
            ⊎ (verify site release ≡ true))
  unfolding verify_promotion
  verify_promotion-ok release w v h =
      let needed = contains (environment_name release.target) site.signature_environments in
      let (same, h1) = guard-ok (unchanged site release) (config_error content_changed) _ h in
      let signed = guard-end (not needed || verify site release) (config_error no_signature) w h1 in
      (
        IsUnchanged-same release.approved_manifest (manifest_hash site release) same,
        elim (Bool-cases needed) [ inl e ↦ inr (ground arith) | inr e ↦ inl e ],
      )

  save-ok :
      (release r : Release) (actor : String) (w v : World)
      → (save release >> (log release_deployed actor release.id >> pure release)) w ≡ (ok r, v)
      → (r ≡ release) × (lookup r.id v.releases ≡ some r)
  save-ok release r actor w v h =
      let q : release ≡ r = ground arith in
      let t : insert release.id release w.releases ≡ v.releases = ground arith in
      (
        cc,
        subst (λ r. lookup r.id v.releases ≡ some r) q
            (subst (λ d. lookup release.id d ≡ some release) t
              (lookup-insert_self release.id release w.releases)),
      )

  promote-ok :
      (release r : Release) (actor : String) (w v : World)
      → promote site release actor w ≡ (ok r, v)
      → IsPromotable release × (r ≡ deployed release) × (lookup r.id v.releases ≡ some r)
  unfolding promote
  promote-ok release r actor w v h =
      let (approved, h1) = guard-ok (is_approved release.status) (config_error wrong_state) _ h in
      let (gates, h2) = guard-ok (clear release) (config_error gates_failed) _ h1 in
      let (u, t, verified, h3) = bind-ok (verify_promotion site release) h2 in
      let (u1, t1, applied, h4) = bind-ok (deploy_items site release actor release.items) h3 in
      let (same, signed) = verify_promotion-ok release w t verified in
      let (target, kept) = save-ok (deployed release) r actor t1 v h4 in
      ((approved, gates, same, signed), target, kept)

  -- When `deploy` returns a release, it is the one that was stored, checked again and marked as
  -- deployed, and that is what is stored. The checked release was approved, its gates are clear, its
  -- manifest hash is the one of its approval, if that kept one, and its signature is valid when
  -- the configuration asks for one in the target environment.
  pub deploy-IsPromotable :
      (release_id actor : String) (w v : World) (r : Release)
      → deploy site release_id actor w ≡ (ok r, v)
      → (found : Release) × (lookup release_id w.releases ≡ some found)
        × IsPromotable (checked site w found)
        × (r ≡ deployed (checked site w found))
        × (lookup r.id v.releases ≡ some r)
  unfolding deploy
  deploy-IsPromotable release_id actor w v r h =
      let (release, t, e, h1) = bind-ok (check site release_id) h in
      let (found, stored, same) = check-ok release_id w t release e in
      let (promotable, target, kept) = promote-ok release r actor t v h1 in
      (found, stored, subst IsPromotable same promotable, cc, kept)
