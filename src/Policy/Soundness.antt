-- ===== src/Policy/Soundness.antt =====
-- What an answer of the policy engine rests on: src/egr/policies/engine.py, `PolicyEngine.evaluate`.
use enterprise_agi_runtime.Prelude.{
  String, ◌≡◌, refl, true, Option, none, some, List, [], ◌∷◌, arith, Memᴰ, Dict, Bool-cases,
  Option-cases, inl, inr, All,
}
use enterprise_agi_runtime.Prelude.Int.{◌≤ℤ◌, ltb_ℤ}
use enterprise_agi_runtime.Prelude.Sort.{Ordered, Ordered-sorted, Memᴰ-sorted, All_of-sorted}
use enterprise_agi_runtime.Domain.{allow, deny}
use enterprise_agi_runtime.Policy.{PolicyRule, Policy, Decision, Value, ToolRequest, PolicyContext}
use enterprise_agi_runtime.Policy.Context.{build_evaluation_context}
use enterprise_agi_runtime.Policy.Engine.{
  Verdict, holds, before, list_policies, in_scope, rule_decision, rules_decision, policies_decision,
  allowlist_decision, evaluate,
}

abbrev pub NotBelow : Policy → Policy → Type 0
NotBelow p q = q.priority ≤ℤ p.priority

-- `list_policies` puts higher priorities first.
pub list_policies-Ordered : (policies : List Policy) → Ordered NotBelow (list_policies policies)
unfolding list_policies
list_policies-Ordered policies =
    Ordered-sorted before NotBelow (λ p q h. ground arith) (λ p q h. ground arith)
      (λ p q r h k. omega arith) policies

module _ {N : Type 0} (condition : Option String → Dict (Value N) → Verdict) where
  -- Rule `r` of policy `p` permits the request: it is about it, and its condition is true.
  pub record Permits (p : Policy) (r : PolicyRule) (request : ToolRequest N)
      (context : PolicyContext N) : Type 0 where
    pub enabled : p.enabled ≡ true
    pub listed : Memᴰ r p.rules
    pub scope : in_scope r request context ≡ true
    pub true_condition :
        condition r.condition (build_evaluation_context request context) ≡ holds true
    pub decision : r.decision ≡ allow

  module _ (request : ToolRequest N) (context : PolicyContext N) where
    rule_allow :
        (p : Policy) (r : PolicyRule) {e : Dict (Value N)} (d : Decision)
        → rule_decision condition p r request context e ≡ some d
        → d.decision ≡ allow
        → (in_scope r request context ≡ true)
          × (condition r.condition e ≡ holds true)
          × (r.decision ≡ allow)
    unfolding rule_decision
    rule_allow p r d h a = ground arith

    rules_first :
        (p : Policy) (rs : List PolicyRule) (e : Dict (Value N)) (d : Decision)
        → rules_decision condition p rs request context e ≡ some d
        → (r : PolicyRule) × Memᴰ r rs × (rule_decision condition p r request context e ≡ some d)
    unfolding rules_decision
    rules_first p [] e d h = absurd (cc)
    rules_first p (r ∷ rs) e d h =
        elim (Option-cases (rule_decision condition p r request context e)) [
          | inl silent ↦
              let (r', m, found) = rules_first p rs e d (ground arith) in (r', Memᴰ.tail m, found)
          | inr (d', found) ↦ (r, Memᴰ.head refl, ground arith)
        ]

    -- No rule of the policy matches the request.
    abbrev pub Silent : Policy → Type 0
    Silent q =
        q.enabled ≡ true
        → rules_decision condition q q.rules request context
            (build_evaluation_context request context)
          ≡ none

    -- The policy `p` decides: one of its rules, `r`, gives `d`, and every policy of `ps` with a
    -- higher priority is silent.
    record Decides (ps : List Policy) (d : Decision) : Type 0 where
      p : Policy
      r : PolicyRule
      found : Memᴰ p ps
      enabled : p.enabled ≡ true
      listed : Memᴰ r p.rules
      gives :
          rule_decision condition p r request context (build_evaluation_context request context)
          ≡ some d
      first : All (λ q. ltb_ℤ p.priority q.priority ≡ true → Silent q) ps

    Silent-below :
        (p : Policy) (ps : List Policy)
        → All (NotBelow p) ps
        → All (λ q. ltb_ℤ p.priority q.priority ≡ true → Silent q) ps
    Silent-below p [] h = tt
    Silent-below p (q ∷ ps) h = (λ above. absurd (ground arith), Silent-below p ps h.1)

    Decides-push :
        (q : Policy) (ps : List Policy) (d : Decision)
        → Silent q
        → Decides ps d
        → Decides (q ∷ ps) d
    Decides-push q ps d silent w = record {
      p = w.p;
      r = w.r;
      found = Memᴰ.tail w.found;
      enabled = w.enabled;
      listed = w.listed;
      gives = w.gives;
      first = (λ _. silent, w.first);
    }

    Decides-head :
        (p : Policy) (ps : List Policy) (d : Decision)
        → All (NotBelow p) ps
        → p.enabled ≡ true
        → rules_decision condition p p.rules request context
            (build_evaluation_context request context)
          ≡ some d
        → Decides (p ∷ ps) d
    Decides-head p ps d o on h =
        let (r, listed, gives) =
          rules_first p p.rules (build_evaluation_context request context) d h in
        record {
          p = p;
          r = r;
          found = Memᴰ.head refl;
          enabled = on;
          listed = listed;
          gives = gives;
          first = (λ above. absurd (ground arith), Silent-below p ps o);
        }

    policies_first :
        (ps : List Policy) (d : Decision)
        → Ordered NotBelow ps
        → policies_decision condition ps request context (build_evaluation_context request context)
          ≡ some d
        → Decides ps d
    unfolding policies_decision
    policies_first [] d o h = absurd (cc)
    policies_first (p ∷ ps) d o h = elim (Bool-cases p.enabled) [
      | inr off ↦
          Decides-push p ps d (λ on. absurd (ground arith)) (policies_first ps d o.1 (ground arith))
      | inl on ↦
          elim (Option-cases (
            rules_decision condition p p.rules request context
              (build_evaluation_context request context))) [
                | inl silent ↦
                    Decides-push p ps d (λ _. silent) (policies_first ps d o.1 (ground arith))
                | inr (d', found) ↦ Decides-head p ps d o.0 on (ground arith)
              ]
    ]

    abbrev pub Justified : List Policy → Type 0
    Justified policies =
        (allowlist_decision request context ≡ none)
        × ((p : Policy) × (r : PolicyRule) × Memᴰ p policies
            × Permits p r request context
            × All (λ q. ltb_ℤ p.priority q.priority ≡ true → Silent q) policies)

    justify :
        (policies : List Policy) (d : Decision)
        → allowlist_decision request context ≡ none
        → d.decision ≡ allow
        → Decides (list_policies policies) d
        → Justified policies
    unfolding list_policies
    justify policies d passes a w =
        let (scope, holds_true, allows) = rule_allow w.p w.r d w.gives a in
        (
          passes,
          (
            w.p,
            w.r,
            Memᴰ-sorted before policies w.found,
            record {
              enabled = w.enabled;
              listed = w.listed;
              scope = scope;
              true_condition = holds_true;
              decision = allows;
            },
            All_of-sorted before (λ q. ltb_ℤ w.p.priority q.priority ≡ true → Silent q) policies
                w.first,
          ),
        )

    refused_denies :
        (d : Decision) → allowlist_decision request context ≡ some d → d.decision ≡ deny
    unfolding allowlist_decision
    refused_denies d h = ground arith

    -- An action is allowed only if the agent's allowlist lets it pass and a rule of an enabled
    -- policy permits it (it is in scope, its condition is true and not broken, and it says allow),
    -- while every enabled policy of a higher priority has no matching rule.
    pub evaluate-allow-Justified :
        (policies : List Policy)
        → (evaluate condition policies request context).decision ≡ allow
        → Justified policies
    unfolding evaluate
    evaluate-allow-Justified policies h = elim (Option-cases (allowlist_decision request context)) [
      | inr (d, refused) ↦ absurd (ground (arith, refused_denies d))
      | inl passes ↦
          elim (Option-cases (
            policies_decision condition (list_policies policies) request context
              (build_evaluation_context request context))) [
                | inl silent ↦ absurd (ground arith)
                | inr (d, found) ↦ justify policies d passes (ground arith) (
                    policies_first (list_policies policies) d (list_policies-Ordered policies)
                      found)
              ]
    ]
