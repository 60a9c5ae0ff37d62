-- ===== src/Examples.antt =====
-- Concrete inputs at which the theorems apply.
mod Agents
mod Connectors
mod Schedules
mod Policies
mod Roles
mod Workflows
mod Trail
mod Releases
mod Proposals
