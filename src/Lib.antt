-- ===== src/Lib.antt =====
-- Enterprise AGI Runtime: the parts that decide what agents may do, and that keep a record of it.
--
-- The program runs tasks of AI agents for an organisation. Its governance core, which is modelled
-- here, has nine parts. The policy engine decides each tool request of an agent: allowed, denied or
-- sent to a human. The agent engine plans a task with a model and executes the steps that the
-- policy engine allows; for the others it asks for an approval, which a human decides. The role
-- tables decide what people may do. The workflow engine orders the steps of a workflow and runs
-- them as tasks. The release manager promotes agents, tools, workflows and policies from
-- development over staging to production, after checks, votes and a signature. The service of
-- connectors calls external systems under declared limits, keeps a queue of calls, and takes their
-- events. The cron expressions of workflows say when they are due. The workbench takes proposals of
-- change, mostly by agents, through checks, a sandbox and a human's approval. The audit ledger
-- chains the events of all parts by hashes.
--
-- Files, and the code that they model (paths from the repository's root):
--
--   Prelude         lists, texts, sorting, integers, dictionaries, and methods that change a state and
--                   may raise (Prelude/Exec: the exceptions of src/egr/core/errors.py as values)
--   Domain          src/egr/domain/enums.py
--   Policy          src/egr/domain/policy.py, tool.py, agent.py: `PolicyRule`, `ToolRequest`,
--                   `AgentSpec.allows_tool`
--   Policy/Context  `_build_evaluation_context` of src/egr/policies/engine.py, and its theorems
--   Policy/Engine   `PolicyEngine`: `evaluate`, `add_policy`, `set_policies`, `list_policies`;
--                   Policy/Soundness has the theorems
--   Security/Rbac   src/egr/security/rbac.py; Rbac/Closure and Rbac/Grants have the theorems
--   Agent           src/egr/domain/task.py and approval.py, `Plan` of src/egr/runtime/planner.py; `World`
--                   is what the runtime keeps, `Site` its configuration and what it takes from elsewhere
--   Agent/Engine, Ending, Loop, Run
--                   `AgentEngine` of src/egr/runtime/agent_engine.py, with `authorize` and
--                   `request_approval` of src/egr/runtime/runtime.py; Agent/Frame, Sanction, Growth,
--                   Foreseen, Outcomes and Planning have the theorems
--   Agent/Desk      `_authorize_decision`, `approve` and `deny` of src/egr/runtime/runtime.py;
--                   Agent/Approvals, Deciders and Awaited have the theorems
--   Agent/Tasks     src/egr/runtime/task_engine.py
--   Integration     src/egr/domain/integration.py, and the tables behind it
--   Integration/Calls, Queue, Inbox
--                   `call`; `enqueue`, `drain` and `cancel`; `receive` of
--                   src/egr/integrations/service.py; Integration/Sends, Jobs, Tries, Table, Backoff and Once
--                   have the theorems
--   Cron            src/egr/orchestration/cron.py; Cron/Ranges, Fields and Next have the theorems
--   Workflow        src/egr/domain/workflow.py and run.py
--   Workflow/Levels `WorkflowEngine.levels` of src/egr/runtime/workflow_engine.py; Workflow/Order and
--                   Workflow/Acyclic have the theorems
--   Workflow/Engine `execute`, `resume`, `_run_step`, `_compensate`, `_skip_blocked`, `_finish` of the
--                   same class; Workflow/Steps, Compensation and Runs have the theorems
--   Release         src/egr/domain/release.py; `World` is what the release manager changes and `Site`
--                   what it takes from elsewhere
--   Release/Gates, Signature, Versions, Manager, Deployment
--                   the modules of src/egr/release: the checks of a promotion, the signed manifest,
--                   the versions of artifacts, and `ReleaseManager` from `check` to `rollback`;
--                   Release/Quorum, Deploy and Rollback have the theorems
--   Proposal        src/egr/domain/proposal.py; Proposal/Workbench is `Workbench` of
--                   src/egr/dev/workbench.py, and Proposal/Approval and Life have the theorems
--   Audit/Ledger    src/egr/audit/ledger.py over src/egr/core/hashing.py; Audit/Chain has the theorems
--   Examples        concrete inputs at which the theorems apply
--
-- Code that the repository takes from elsewhere is a parameter: SHA-256, HMAC and JSON (`Site`,
-- `Kit`, `Codec`), the YAML reader, regular expressions; the parser of addresses, the joining of
-- addresses and the case of texts (`host_of`, `join_url`, `upper`, `lower` of Integration); the
-- digits of Unicode and the moments of `datetime` (`Digits` and `Clock` of Cron). So are parts of
-- the repository that are not modelled: the evaluation of conditions (`condition`, which may be
-- broken), the tools (`execute`) and the model's answer to the request for a plan (`propose`), the
-- task that a workflow step starts (`outcome`, the status in which the agents leave it, or what
-- they raise), the registries, evaluations and scans that the gates consult, and the static checks
-- and the sandbox of proposals.
--
-- Bounds. The fuel of `expand_roles` is one call for each given role, eleven for the roles that
-- those may push and one to end; that of `levels` is one round for each step and one to end; both
-- are enough for every input. That of the `search` of `next_after` is one round for each minute of
-- the horizon and one to end, which is enough too. The fuel of `run_step` counts the nested calls
-- of `_run_step` and `_compensate`: a rank that falls along the compensations gives a bound, and
-- without one there may be none. Revisions and attempts are natural numbers, as Python's integers
-- do not overflow; the limit on the attempts of a job is an integer, as it may be given as a
-- negative one.
--
-- Left out: time stamps, texts of checks, costs and audit payloads; the threads of a parallel level
-- (its steps run one after another here); the limit of a hundred revisions that `versions` reads of
-- an artifact; reloading the runtime after a write; what a tool does to the runtime itself, as
-- `task.delegate` does (`execute` gives a result only); and the cache of parsed conditions, by
-- which two rules whose ids and conditions join to one text would share a condition. Packs are no
-- artifact kind of a release here, as the gates know none. The other parts of the repository
-- (conditions, memory, model and channel gateways, evaluation, storage, the API and the command
-- line) are not modelled.
pub mod Prelude
pub mod Domain
pub mod Policy
pub mod Security
pub mod Workflow
pub mod Release
pub mod Proposal
pub mod Audit
pub mod Agent
pub mod Integration
pub mod Cron
pub mod Examples
