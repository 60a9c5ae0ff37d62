-- ===== src/Integration.antt =====
-- Connectors to external systems, their calls, the outgoing queue and the incoming events:
-- src/egr/domain/integration.py, and their tables in src/egr/storage/repositories.py.
pub mod Calls
pub mod Queue
pub mod Inbox
pub mod Sends
pub mod Jobs
pub mod Tries
pub mod Table
pub mod Backoff
pub mod Once
use enterprise_agi_runtime.Prelude.{
  ℕ, suc, ◌-◌, ◌*◌, leb, String, Bool, true, false, ◌&&◌, ◌||◌, Option, none, some, List, [], ◌∷◌,
  ◌++◌, ◌==◌, map, any, find, keep, take, contains, Dict, if◌then◌else◌,
}
use enterprise_agi_runtime.Prelude.Int.{ℤ}
use enterprise_agi_runtime.Domain.{Environment}
use enterprise_agi_runtime.Policy.{Policy, Value}
use enterprise_agi_runtime.Policy.Engine.{Verdict}

pub data IntegrationKind : Type 0 where
  rest graphql sql webhook : IntegrationKind

unfoldable pub kind_name : IntegrationKind → String
kind_name rest = "rest"
kind_name graphql = "graphql"
kind_name sql = "sql"
kind_name webhook = "webhook"

abbrev pub is_sql : IntegrationKind → Bool
is_sql sql = true
is_sql _ = false

pub data JobStatus : Type 0 where
  pending running done failed cancelled : JobStatus

pub data EventStatus : Type 0 where
  received duplicate rejected triggered : EventStatus

-- `READ_OPERATIONS`
abbrev pub read_operations : List String
read_operations =
    "GET" ∷ "HEAD" ∷ "OPTIONS" ∷ "QUERY" ∷ "SELECT" ∷ "WITH" ∷ "PRAGMA" ∷ "EXPLAIN" ∷ []

pub record InboundConfig : Type 0 where
  pub enabled : Bool
  pub secret : String
  pub event_id_header : String
  pub event_type : String

pub record Integration : Type 0 where
  pub id : String
  pub kind : IntegrationKind
  pub enabled : Bool
  pub base_url : String
  pub dsn : String
  pub allowed_hosts : List String
  pub allowed_methods : List String
  pub read_only : Bool
  pub external : Bool
  pub inbound : InboundConfig

-- Why a call has no answer: the checks of the connector, the policy, or the transport.
pub data CallError : Type 0 where
  integrations_disabled connector_disabled connector_read_only method_not_listed : CallError
  without_dsn without_host host_not_listed : CallError
  denied approval_needed : String → CallError
  transport_error : String → CallError
  connector_missing : CallError

pub record IntegrationCall : Type 0 where
  pub id : String
  pub integration : String
  pub method : String
  pub ok : Bool
  pub decision : String
  pub approved : Option Bool
  pub error : Option CallError
  pub actor : String

-- `Content` holds what a request carries: body, variables and headers.
pub record IntegrationJob (Content : Type 0) : Type 0 where
  pub id : String
  pub integration : String
  pub method : String
  pub path : String
  pub query : String
  pub content : Content
  pub status : JobStatus
  pub attempts : ℕ
  pub max_attempts : ℤ
  pub next_attempt : Option ℕ
  pub last_error : Option CallError
  pub call_id : Option String
  pub idempotency : Option String
  pub actor : String

pub record InboundEvent : Type 0 where
  pub id : String
  pub integration : String
  pub external_id : Option String
  pub event_type : String
  pub status : EventStatus
  pub signature_ok : Bool

-- One use of a transport: REST, GraphQL or SQL.
pub record Sent (Content : Type 0) : Type 0 where
  pub integration : Integration
  pub method : String
  pub path : String
  pub target : String
  pub query : String
  pub content : Content

-- What the transport does: it raises, or it answers.
pub data Delivery : Type 0 where
  raised : String → Delivery
  answered : Bool → Option String → Delivery

pub data EventType : Type 0 where
  integration_called integration_denied integration_job_queued integration_job_failed : EventType
  integration_event_received integration_event_rejected : EventType

-- A record of the trail, with the id of the call, the job or the event.
pub record Entry : Type 0 where
  pub event_type : EventType
  pub actor : String
  pub about : String

-- `registry` is the memory of the service and `rows` the table behind it. `sent`, `calls` and
-- `trail` have their last entry first; `jobs` and `events` are tables in the order of insertion.
pub record World (Content : Type 0) : Type 0 where
  pub registry : Dict Integration
  pub rows : Dict Integration
  pub calls : List IntegrationCall
  pub jobs : List (IntegrationJob Content)
  pub events : List InboundEvent
  pub sent : List (Sent Content)
  pub trail : List Entry
  pub drawn : ℕ

-- A workflow's trigger by an event.
pub record Trigger : Type 0 where
  pub event : Option String
  pub enabled : Bool

-- The configuration, and the code around the service. Times are seconds.
pub record Site (N Content : Type 0) : Type 0 where
  pub enabled : Bool
  pub queue_enabled : Bool
  pub queue_max_attempts : ℤ
  pub batch : ℕ
  pub backoff_seconds : ℕ
  pub max_backoff_seconds : ℕ
  pub environment : Environment
  pub enterprise_settings : Dict (Value N)
  pub condition : Option String → Dict (Value N) → Verdict
  pub policies : List Policy
  pub triggers : List Trigger
  pub upper : String → String
  pub lower : String → String
  pub host_of : String → Option String
  pub join_url : String → String → String
  pub resolve_secret : String → String
  pub new_id : String → ℕ → String
  pub now : World Content → ℕ
  pub transport : World Content → Sent Content → Delivery

module _ {Content : Type 0} where
  -- `audit.record`
  unfoldable pub log : EventType → String → String → World Content → World Content
  log event_type actor about w =
      let entry : Entry = record { event_type = event_type; actor = actor; about = about } in
      record w { trail = entry ∷ w.trail }
