-- ===== src/Examples/Agents.antt =====
-- A task of three steps, the approval that one of them waits for, and what the theorems about
-- src/egr/runtime/agent_engine.py and src/egr/runtime/runtime.py say of them.
use enterprise_agi_runtime.Prelude.{
  ℕ, ◌≤◌, String, ◌≡◌, refl, ◌⊎◌, true, false, none, some, [], ◌∷◌, lookup, ◌==◌, length, arith,
  if◌then◌else◌,
}
use enterprise_agi_runtime.Prelude.Exec.{ok, err, Result, validation_error}
use enterprise_agi_runtime.Prelude.Int.{pos}
use enterprise_agi_runtime.Prelude.Text.{concat, decimal}
use enterprise_agi_runtime.Domain.{allow, require_approval, development, production, TaskStatus}
use enterprise_agi_runtime.Security.Rbac.{Principal}
use enterprise_agi_runtime.Policy.{PolicyRule, Policy, AgentSpec}
use enterprise_agi_runtime.Policy.Engine.{holds}
use enterprise_agi_runtime.Agent.{
  PlanStep, Plan, Task, ApprovalStatus, Approval, World, Site, planned, malformed, aborted,
}
use enterprise_agi_runtime.Agent.Engine.{executor, result_of}
use enterprise_agi_runtime.Agent.Loop.{from_index, started}
use enterprise_agi_runtime.Agent.Run.{run, run_with, plan_of, on_answer}
use enterprise_agi_runtime.Agent.Desk.{approve, deny_approval}
use enterprise_agi_runtime.Agent.Sanction.{Grown, Sanctioned}
use enterprise_agi_runtime.Agent.Growth.{run-Sanctioned}
use enterprise_agi_runtime.Agent.Approvals.{deny_approval-Sanctioned}
use enterprise_agi_runtime.Agent.Deciders.{Untouched, Decider, approve-Decider}
use enterprise_agi_runtime.Agent.Foreseen.{trace_of}
use enterprise_agi_runtime.Agent.Outcomes.{Outcome, run-Outcome}
use enterprise_agi_runtime.Agent.Planning.{answer_to, run_bounded, run_raises}

abbrev rule : String → String → PolicyRule
rule id action = record {
  id = id;
  action = action;
  condition = none;
  decision = allow;
  reason = "";
  environments = [];
  required_role = none;
  agents = [];
}

abbrev office_policy : Policy
office_policy = record {
  id = "office";
  name = "office";
  version = "1";
  description = "";
  enabled = true;
  priority = pos 10;
  rules =
      rule "files" "fs.*"
      ∷ record (rule "mail" "mail.send") {
        decision = require_approval;
        required_role = some "approver";
      }
      ∷ [];
  builtin = false;
}

abbrev ana : AgentSpec
ana = record { id = "ana"; area = some "sales"; memory = []; tools = []; namespaces = [] }

abbrev carla : Principal
carla = record { id = "carla"; agent_kind = false; roles = "approver" ∷ []; areas = [] }

abbrev office : Site ℕ
office = record {
  environment = development;
  max_steps = 8;
  auto_approve_in_development = false;
  identity_required = true;
  allow_agent_approval = false;
  approval_min_role = "approver";
  enterprise_settings = [];
  security = [];
  first_default_agent = ana;
  tool_risk = λ tool. none;
  condition = λ expression values. holds true;
  policies = office_policy ∷ [];
  resolve = λ actor. if actor == "carla" then some carla else none;
  redact = λ args. args;
  new_id = λ kind n. concat (kind ∷ "_" ∷ decimal n ∷ []);
  propose = λ w task agent. malformed;
  execute = λ w call. record { ok = true; output = "done"; error = none; artifacts = [] };
}

abbrev plan_step : String → String → PlanStep ℕ
plan_step id tool = record { id = id; tool = tool; args = []; rationale = ""; action = none }

abbrev mailing : Plan ℕ
mailing = record {
  objective = "write to the customers";
  steps = plan_step "s1" "fs.read" ∷ plan_step "s2" "mail.send" ∷ plan_step "s3" "shell.run" ∷ [];
  final_answer = "sent";
}

abbrev new_mailing : Task ℕ
new_mailing = record {
  id = "t1";
  objective = "write to the customers";
  agent_id = "ana";
  environment = production;
  status = TaskStatus.pending;
  created_by = "cli";
  plan = none;
  cursor = 0;
  pending_approval = none;
  pending_step = none;
  result = none;
  error = none;
}

abbrev planned_mailing : Task ℕ
planned_mailing = record new_mailing { plan = some mailing }

-- The task waits for its second step.
abbrev waiting_mailing : Task ℕ
waiting_mailing = record planned_mailing {
  cursor = 1;
  status = TaskStatus.cancelled;
  pending_approval = some "a1";
  pending_step = some "s2";
}

-- An approval that was denied before.
abbrev old_approval : Approval ℕ
old_approval = record {
  id = "a0";
  action = "fs.write";
  tool = "fs.write";
  args = [];
  requested_by = "ana";
  task_id = some "t1";
  step_id = some "s0";
  environment = production;
  status = ApprovalStatus.denied;
  required_role = none;
  reason = "";
  decided_by = none;
  decision_note = none;
}

abbrev desk : World ℕ
desk = record {
  agents = ("ana", ana) ∷ [];
  agent_rows = [];
  tasks = ("t1", waiting_mailing) ∷ [];
  approvals = ("a0", old_approval) ∷ [];
  artifacts = [];
  memory = [];
  trail = [];
  executed = [];
  drawn = 0;
}

run-Sanctioned_example : Grown (Sanctioned office) [] (run office planned_mailing desk).1.executed
run-Sanctioned_example = run-Sanctioned office planned_mailing desk

run-Outcome_example :
    (t : Task ℕ) × (v : World ℕ) × (run office planned_mailing desk ≡ (ok t, v))
    × Outcome office
        (executor office planned_mailing desk).0
        planned_mailing
        mailing.steps
        (record { task = t; world = v })
unfolding from_index
run-Outcome_example = run-Outcome office planned_mailing mailing desk refl

-- A model that plans, and a limit below its plan.
abbrev planner : Site ℕ
planner = record office { max_steps = 2; propose = λ w task agent. planned mailing }

abbrev task_or : Result (Task ℕ) → Task ℕ
task_or (ok task) = task
task_or (err e) = new_mailing

run_bounded_example : length (trace_of (task_or (run planner new_mailing desk).0)) ≤ 2
unfolding run run_with plan_of started on_answer result_of executor
run_bounded_example =
    run_bounded planner new_mailing desk (task_or (run planner new_mailing desk).0)
      (run planner new_mailing desk).1 2 refl (omega arith) (omega arith) refl

run_raises_example :
    (((answer_to office new_mailing desk ≡ malformed) × (validation_error ≡ validation_error))
      ⊎ (answer_to office new_mailing desk ≡ aborted validation_error))
    × (new_mailing.plan ≡ none)
    × ((run office new_mailing desk).1.executed ≡ [])
    × ((t : Task ℕ) × (lookup "t1" (run office new_mailing desk).1.tasks ≡ some t)
        × (t.status ≡ TaskStatus.running)
        × (t.plan ≡ none))
unfolding run run_with plan_of on_answer executor started
run_raises_example =
    run_raises office new_mailing desk validation_error (run office new_mailing desk).1 refl

approve-Decider_example :
    Untouched desk (approve office "a0" "carla" none none desk).1
    ⊎ ((approval : Approval ℕ) × (lookup "a0" desk.approvals ≡ some approval)
        × Decider office approval "carla" none desk)
approve-Decider_example = approve-Decider office "a0" "carla" none none desk refl

deny_approval-Sanctioned_example :
    Grown (Sanctioned office) [] (deny_approval office "a0" "carla" none none desk).1.executed
deny_approval-Sanctioned_example = deny_approval-Sanctioned office "a0" "carla" none none desk
