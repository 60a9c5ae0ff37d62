-- ===== src/Agent/Awaited.antt =====
-- What an approval executes: `Runtime.approve` of src/egr/runtime/runtime.py reads the step from the
-- task, and neither the status nor the step of the approval.
use enterprise_agi_runtime.Prelude.{◌≢◌}
use mathlib.Core.Logic.{◌≢◌}
