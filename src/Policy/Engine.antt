-- ===== src/Policy/Engine.antt =====
-- The policy engine: `PolicyEngine` of src/egr/policies/engine.py. `Condition` enters as the parameter
-- `condition`: the text of a rule's condition, evaluated in a context. Compiled conditions are kept
-- in a cache by their text, which is left out: rules whose ids and conditions join to one text
-- share an entry of it.
use enterprise_agi_runtime.Prelude.{
  String, Bool, false, ◌&&◌, ◌||◌, not, Option, none, some, List, [], ◌∷◌, ◌++◌, ◌==◌, any,
  contains, is_empty, keep, Dict, values, insert, if◌then◌else◌,
}
use enterprise_agi_runtime.Prelude.Int.{ltb_ℤ, eqb_ℤ}
use enterprise_agi_runtime.Prelude.Sort.{sorted, text_lt}
use enterprise_agi_runtime.Prelude.Text.{
  strip, starts_with, ends_with, drop_last, drop_first, concat,
}
use enterprise_agi_runtime.Domain.{deny, eq_environment}
use enterprise_agi_runtime.Policy.{
  PolicyRule, Policy, Decision, Value, ToolRequest, PolicyContext, policy_action, allows_tool,
}
use enterprise_agi_runtime.Policy.Context.{build_evaluation_context}

-- A condition's value as a Boolean, or the text of the `ConditionError` that it raised.
pub data Verdict : Type 0 where
  holds : Bool → Verdict
  broken : String → Verdict

-- ---- management

-- The sort key `(-priority, id)`.
abbrev pub before : Policy → Policy → Bool
before p q = ltb_ℤ q.priority p.priority || (eqb_ℤ q.priority p.priority && text_lt p.id q.id)

unfoldable pub list_policies : List Policy → List Policy
list_policies policies = sorted before policies

unfoldable pub add_policy : List Policy → Policy → Bool → List Policy
add_policy policies policy replace = sorted before (
    (if replace then keep (λ item. not (item.id == policy.id)) policies else policies)
    ++ policy ∷ [])

-- `{policy.id: policy for policy in items}`
unfoldable pub by_id : List Policy → Dict Policy → Dict Policy
by_id [] d = d
by_id (p ∷ ps) d = by_id ps (insert p.id p d)

unfoldable pub set_policies : List Policy → List Policy → List Policy
set_policies current policies =
    sorted before (values (by_id (keep (λ p. p.builtin) current ++ policies) []))

-- ---- decision

-- `(rule.action or "*").strip()`
unfoldable pub rule_pattern : PolicyRule → String
rule_pattern rule = strip (if rule.action == "" then "*" else rule.action)

unfoldable pub action_matches : String → String → Bool
action_matches pattern action =
    (pattern == "*")
    || (pattern == "")
    || (pattern == action)
    || (ends_with pattern ".*" && starts_with action (drop_last pattern))
    || (starts_with pattern "*" && ends_with action (drop_first pattern))

module _ {N : Type 0} where
  unfoldable pub matches_action : PolicyRule → ToolRequest N → Bool
  matches_action rule request = action_matches (rule_pattern rule) (policy_action request)

  -- The three tests before a rule's condition: action, environment, agent.
  unfoldable pub in_scope : PolicyRule → ToolRequest N → PolicyContext N → Bool
  in_scope rule request context =
      matches_action rule request
      && (is_empty rule.environments || any (eq_environment context.environment) rule.environments)
      && (is_empty rule.agents
          || elim context.agent [ none ↦ false | some agent ↦ contains agent.id rule.agents ])

  -- `context.agent and not context.agent.allows_tool(request.tool)`, with the decision made then.
  unfoldable pub allowlist_decision : ToolRequest N → PolicyContext N → Option Decision
  allowlist_decision request context = elim context.agent [
    | none ↦ none
    | some agent ↦
        if allows_tool agent request.tool
        then none
        else some (record {
          decision = deny;
          rule_id = some "agent-allowlist";
          policy_id = some agent.id;
          reason =
              concat
                ("agent '" ∷ agent.id ∷ "' is not allowed to use tool '" ∷ request.tool ∷ "'" ∷ []);
          required_role = none;
        })
  ]

abbrev pub default_deny : Decision
default_deny = record {
  decision = deny;
  rule_id = none;
  policy_id = none;
  reason = "default deny: no policy rule matched this action";
  required_role = none;
}

abbrev reason_of : PolicyRule → String
reason_of rule =
    if rule.reason == "" then concat ("matched rule '" ∷ rule.id ∷ "'" ∷ []) else rule.reason

module _ {N : Type 0} (condition : Option String → Dict (Value N) → Verdict) where
  -- What one rule decides, or `none` for the `continue`s.
  unfoldable pub rule_decision :
      Policy → PolicyRule → ToolRequest N → PolicyContext N → Dict (Value N) → Option Decision
  rule_decision policy rule request context evaluation =
      if in_scope rule request context
      then elim (condition rule.condition evaluation) [
        | holds b ↦
            if b
            then some (record {
              decision = rule.decision;
              rule_id = some rule.id;
              policy_id = some policy.id;
              reason = reason_of rule;
              required_role = rule.required_role;
            })
            else none
        | broken exc ↦ some (record {
          decision = deny;
          rule_id = some rule.id;
          policy_id = some policy.id;
          reason = concat ("condition error: " ∷ exc ∷ []);
          required_role = none;
        })
      ]
      else none

  -- `for rule in policy.rules`
  unfoldable pub rules_decision :
      Policy → List PolicyRule → ToolRequest N → PolicyContext N → Dict (Value N) → Option Decision
  rules_decision policy [] request context evaluation = none
  rules_decision policy (rule ∷ rules) request context evaluation =
      let rest = rules_decision policy rules request context evaluation in
      elim (rule_decision policy rule request context evaluation) [ none ↦ rest | some d ↦ some d ]

  -- `for policy in self.list_policies()`
  unfoldable pub policies_decision :
      List Policy → ToolRequest N → PolicyContext N → Dict (Value N) → Option Decision
  policies_decision [] request context evaluation = none
  policies_decision (policy ∷ policies) request context evaluation =
      let rest = policies_decision policies request context evaluation in
      if policy.enabled
      then elim (rules_decision policy policy.rules request context evaluation) [
        | none ↦ rest
        | some d ↦ some d
      ]
      else rest

  unfoldable pub evaluate : List Policy → ToolRequest N → PolicyContext N → Decision
  evaluate policies request context =
      let decided =
        policies_decision (list_policies policies) request context
          (build_evaluation_context request context) in
      elim (allowlist_decision request context) [
        | some refused ↦ refused
        | none ↦ elim decided [ none ↦ default_deny | some d ↦ d ]
      ]
