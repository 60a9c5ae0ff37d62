-- ===== src/Release/Gates.antt =====
-- The gates of a promotion: src/egr/release/gates.py. The texts of the checks are left out.
use enterprise_agi_runtime.Prelude.{
  ◌-◌, String, Bool, true, false, not, ◌&&◌, List, [], ◌∷◌, ◌++◌, ◌==◌, any, keep, leb, ltb,
  is_empty, take, replicate, if◌then◌else◌,
}
use enterprise_agi_runtime.Domain.{
  staging, production, Environment, environment_name, eq_environment,
}
use enterprise_agi_runtime.Release.{
  Kind, eq_kind, rank, ReleaseStatus, CheckLevel, error, warning, info, ValidationCheck,
  ReleaseItem, Release, EvaluationRun, Site,
}
use enterprise_agi_runtime.Release.Signature.{verify}

-- `_check`
abbrev pub check : String → Bool → CheckLevel → ValidationCheck
check name ok level = record { name = name; ok = ok; level = if ok then info else level }

abbrev is_deployed : ReleaseStatus → Bool
is_deployed ReleaseStatus.deployed = true
is_deployed _ = false

-- `_deployed_to`, over the latest releases
unfoldable pub deployed_to : List Release → Kind → String → Environment → Bool
deployed_to releases kind name environment =
    any
      (λ (release : Release).
        is_deployed release.status
        && eq_environment release.target environment
        && any (λ (item : ReleaseItem). eq_kind item.kind kind && item.name == name) release.items)
      (take 100 releases)

module _ (site : Site) where
  -- `_evidence`
  unfoldable pub evidence_checks : Kind → String → List ValidationCheck
  evidence_checks kind name =
      let current = site.current_version kind name in
      elim (keep (λ (run : EvaluationRun). run.target == name && eq_kind run.target_kind kind)
        (take 100 site.evaluations)) [
          | [] ↦ check "evidência" false error ∷ []
          | latest ∷ older ↦
              if not latest.passed
              then check "evidência" false error ∷ []
              else check "evidência" true error
                ∷ (if not (current == "")
                      && not (latest.artifact_version == "")
                      && not (latest.artifact_version == current)
                    then check "evidência" false warning ∷ []
                    else [])
        ]

  -- The ladder: a promotion goes up one step, and to production from staging.
  unfoldable pub ladder_checks : List Release → Environment → ReleaseItem → List ValidationCheck
  ladder_checks releases target item =
      (if leb (rank target) (rank item.from_environment)
        then check "escada" false error ∷ []
        else [])
      ++ ((if ltb 1 (rank target - rank item.from_environment)
            then check "escada" false error ∷ []
            else [])
          ++ (if eq_environment target production
                && not (deployed_to releases item.kind item.name staging)
              then check "estágio" false error ∷ []
              else []))

  -- The body of the loop over the items.
  unfoldable pub item_checks : List Release → Environment → ReleaseItem → List ValidationCheck
  item_checks releases target item =
      ladder_checks releases target item
      ++ (if site.exists item.kind item.name
          then evidence_checks item.kind item.name
            ++ replicate
                (if ltb 3 (site.blocking_findings item.kind item.name)
                  then 3
                  else site.blocking_findings item.kind item.name)
                (check "segurança" false error)
          else check "artefato" false error ∷ [])

  unfoldable pub items_checks : List Release → Environment → List ReleaseItem → List ValidationCheck
  items_checks releases target [] = []
  items_checks releases target (item ∷ items) =
      item_checks releases target item ++ items_checks releases target items

  -- One warning for each configured environment that is the target.
  unfoldable pub signature_checks : List String → Release → List ValidationCheck
  signature_checks [] release = []
  signature_checks (environment ∷ rest) release =
      (if environment_name release.target == environment
        then check "assinatura" (verify site release) warning ∷ []
        else [])
      ++ signature_checks rest release

  -- `values or ["production"]`
  abbrev signed_environments : List String
  signed_environments =
      if is_empty site.signature_environments
      then "production" ∷ []
      else site.signature_environments

  -- `evaluate`, with the latest releases of the repository
  unfoldable pub evaluate : List Release → Release → List ValidationCheck
  evaluate releases release =
      check "itens" (not (is_empty release.items)) error
      ∷ (if is_empty release.items
          then []
          else signature_checks signed_environments release
            ++ items_checks releases release.target release.items)
