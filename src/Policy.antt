-- ===== src/Policy.antt =====
-- Policies, tool requests and agents as the policy engine sees them: src/egr/domain/policy.py,
-- src/egr/domain/tool.py, src/egr/domain/agent.py, and the values a condition can name.
pub mod Engine
pub mod Soundness
pub mod Context
use enterprise_agi_runtime.Prelude.{
  ℕ, String, ◌≡◌, Bool, true, false, ◌&&◌, ◌||◌, Option, none, some, List, [], ◌∷◌, ◌==◌, is_empty,
  any, Dict, if◌then◌else◌,
}
use enterprise_agi_runtime.Prelude.Int.{ℤ}
use enterprise_agi_runtime.Prelude.Text.{starts_with, ends_with, drop_last}
use enterprise_agi_runtime.Domain.{Environment, DecisionType, allow, RiskLevel}

pub record PolicyRule : Type 0 where
  pub id : String
  pub action : String
  pub condition : Option String
  pub decision : DecisionType
  pub reason : String
  pub environments : List Environment
  pub required_role : Option String
  pub agents : List String

pub record Policy : Type 0 where
  pub id : String
  pub name : String
  pub version : String
  pub description : String
  pub enabled : Bool
  pub priority : ℤ
  pub rules : List PolicyRule
  pub builtin : Bool

pub record Decision : Type 0 where
  pub decision : DecisionType
  pub rule_id : Option String
  pub policy_id : Option String
  pub reason : String
  pub required_role : Option String

-- What decisions and the agent engine read of `AgentSpec`; `tools` and `namespaces` are those of
-- its `permissions`.
pub record AgentSpec : Type 0 where
  pub id : String
  pub area : Option String
  pub memory : List String
  pub tools : List String
  pub namespaces : List String

-- A value of the evaluation context. `N` holds Python's numbers.
mutual
  pub data Value (N : Type 0) : Type 0 where
    null : Value N
    boolean : Bool → Value N
    number : N → Value N
    text : String → Value N
    sequence : Items N → Value N
    mapping : Fields N → Value N

  pub data Items (N : Type 0) : Type 0 where
    nil : Items N
    cons : Value N → Items N → Items N

  pub data Fields (N : Type 0) : Type 0 where
    end : Fields N
    field : String → Value N → Fields N → Fields N

-- A dictionary as a value.
unfoldable pub to_fields : {N : Type 0} → Dict (Value N) → Fields N
to_fields [] = end
to_fields ((k, v) ∷ d) = field k v (to_fields d)

-- The fields of a request that the engine reads.
pub record ToolRequest (N : Type 0) : Type 0 where
  pub tool : String
  pub args : Dict (Value N)
  pub action : Option String
  pub task_id : Option String

-- `self.action or self.tool`
unfoldable pub policy_action : {N : Type 0} → ToolRequest N → String
policy_action r = elim r.action [ none ↦ r.tool | some a ↦ if a == "" then r.tool else a ]

pub record PolicyContext (N : Type 0) : Type 0 where
  pub environment : Environment
  pub agent : Option AgentSpec
  pub enterprise_settings : Dict (Value N)
  pub risk : RiskLevel
  pub security : Dict (Value N)
  pub extra : Dict (Value N)

-- One pattern of an agent's allowlist.
unfoldable pub tool_pattern_matches : String → String → Bool
tool_pattern_matches pattern tool_name =
    (pattern == tool_name)
    || (ends_with pattern ".*" && starts_with tool_name (drop_last pattern))
    || (pattern == "*")

-- `AgentSpec.allows_tool`
unfoldable pub allows_tool : AgentSpec → String → Bool
allows_tool agent tool_name =
    is_empty agent.tools || any (λ pattern. tool_pattern_matches pattern tool_name) agent.tools
