-- ===== src/Examples/Policies.antt =====
-- A request to the policy engine of src/egr/policies/engine.py, and what the theorems say of it.
use enterprise_agi_runtime.Prelude.{
  ℕ, String, ◌≡◌, refl, true, false, Option, none, some, List, [], ◌∷◌, Dict, ◌==◌, lookup,
  if◌then◌else◌, eq_iff,
}
use enterprise_agi_runtime.Prelude.Int.{pos}
use enterprise_agi_runtime.Prelude.Sort.{sorted, insert_sorted}
use enterprise_agi_runtime.Prelude.Text.{
  is_space, strip, lstrip, rstrip, starts_with, ends_with, drop_last,
}
use enterprise_agi_runtime.Domain.{RiskLevel, allow, deny, development}
use enterprise_agi_runtime.Policy.{
  PolicyRule, Policy, Value, text, ToolRequest, PolicyContext, policy_action, tool_pattern_matches,
  allows_tool,
}
use enterprise_agi_runtime.Policy.Context.{
  build_evaluation_context, runtime_context, last_value, reserved_key_protected, argument_overrides,
}
use enterprise_agi_runtime.Policy.Engine.{
  Verdict, holds, broken, evaluate, list_policies, policies_decision, rules_decision, rule_decision,
  in_scope, matches_action, action_matches, rule_pattern, allowlist_decision,
}
use enterprise_agi_runtime.Policy.Soundness.{Justified, evaluate-allow-Justified}

abbrev condition : Option String → Dict (Value ℕ) → Verdict
condition none values = holds true
condition (some expression) values =
    if expression == "oops" then broken "unknown name" else holds false

abbrev read_request : ToolRequest ℕ
read_request = record {
  tool = "fs.read";
  args = ("path", text "notes.txt") ∷ ("task_id", text "forged") ∷ [];
  action = none;
  task_id = some "t1";
}

abbrev reader : PolicyContext ℕ
reader = record {
  environment = development;
  agent =
      some (record { id = "ana"; area = none; memory = []; tools = "fs.*" ∷ []; namespaces = [] });
  enterprise_settings = [];
  risk = RiskLevel.low;
  security = [];
  extra = [];
}

abbrev files_rule : PolicyRule
files_rule = record {
  id = "files";
  action = "fs.*";
  condition = none;
  decision = allow;
  reason = "";
  environments = development ∷ [];
  required_role = none;
  agents = [];
}

abbrev policies : List Policy
policies =
    record {
      id = "base";
      name = "Base";
      version = "1";
      description = "";
      enabled = true;
      priority = pos 1;
      rules = files_rule ∷ [];
      builtin = true;
    }
    ∷ record {
      id = "strict";
      name = "Strict";
      version = "1";
      description = "";
      enabled = true;
      priority = pos 9;
      rules = record files_rule { id = "shell"; action = "shell.*"; decision = deny } ∷ [];
      builtin = false;
    }
    ∷ []

evaluate-allow-Justified_example : Justified condition read_request reader policies
unfolding evaluate list_policies policies_decision rules_decision rule_decision in_scope
    matches_action action_matches rule_pattern allowlist_decision policy_action tool_pattern_matches
    allows_tool strip lstrip rstrip is_space starts_with ends_with drop_last sorted insert_sorted
evaluate-allow-Justified_example =
    evaluate-allow-Justified condition read_request reader policies refl

reserved_key_protected_example :
    lookup "risk" (build_evaluation_context read_request reader)
    ≡ lookup "risk" (runtime_context read_request reader)
reserved_key_protected_example = reserved_key_protected read_request reader "risk" refl

argument_overrides_example :
    lookup "task_id" (build_evaluation_context read_request reader) ≡ some (text "forged")
unfolding last_value
argument_overrides_example =
    argument_overrides read_request reader "task_id" refl
      (λ h. let e : false ≡ true = (eq_iff "task_id" "args").1 h in absurd (cc))
