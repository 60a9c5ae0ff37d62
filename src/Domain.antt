-- ===== src/Domain.antt =====
-- The enumerations that several parts share (src/egr/domain/enums.py).
use enterprise_agi_runtime.Prelude.{String, Bool, true, false}

pub data Environment : Type 0 where
  development staging production : Environment

-- `str(environment)`
unfoldable pub environment_name : Environment → String
environment_name development = "development"
environment_name staging = "staging"
environment_name production = "production"

abbrev pub eq_environment : Environment → Environment → Bool
eq_environment development development = true
eq_environment staging staging = true
eq_environment production production = true
eq_environment _ _ = false

pub data DecisionType : Type 0 where
  allow deny require_approval : DecisionType

pub data RiskLevel : Type 0 where
  low medium high critical : RiskLevel

unfoldable pub risk_name : RiskLevel → String
risk_name low = "low"
risk_name medium = "medium"
risk_name high = "high"
risk_name critical = "critical"

pub data TaskStatus : Type 0 where
  pending running waiting completed failed cancelled requires_approval : TaskStatus
