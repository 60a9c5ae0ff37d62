-- ===== src/Examples/Connectors.antt =====
-- A connector to a shop, a job of its queue, and events that it sends; what the theorems about
-- src/egr/integrations/service.py say of them.
use enterprise_agi_runtime.Prelude.{
  ℕ, ◌+◌, ◌*◌, ◌≤◌, String, Bool, ◌≡◌, refl, ◌⊎◌, inr, true, false, none, some, [], ◌∷◌, All,
  lookup, arith,
}
use enterprise_agi_runtime.Prelude.Text.{concat, decimal}
use enterprise_agi_runtime.Domain.{production}
use enterprise_agi_runtime.Policy.Engine.{holds}
use enterprise_agi_runtime.Integration.{
  IntegrationKind, Integration, JobStatus, IntegrationJob, duplicate, answered, World, Site,
}
use enterprise_agi_runtime.Prelude.Int.{pos}
use enterprise_agi_runtime.Integration.Calls.{Order, call, sending, method_of}
use enterprise_agi_runtime.Integration.Queue.{drain, min, wait_seconds}
use enterprise_agi_runtime.Integration.Inbox.{Delivered, receive, external_id_of, is_closed}
use enterprise_agi_runtime.Integration.Sends.{Permitted, call-Permitted}
use enterprise_agi_runtime.Integration.Jobs.{WellFormed}
use enterprise_agi_runtime.Integration.Table.{drained, queue_step-WellFormed}
use enterprise_agi_runtime.Integration.Backoff.{wait_seconds-bounds}
use enterprise_agi_runtime.Integration.Once.{receive_twice}

abbrev shop : Integration
shop = record {
  id = "shop";
  kind = IntegrationKind.rest;
  enabled = true;
  base_url = "https://shop.example";
  dsn = "";
  allowed_hosts = "shop.example" ∷ [];
  allowed_methods = "GET" ∷ [];
  read_only = true;
  external = true;
  inbound = record {
    enabled = true;
    secret = "vault:SHOP";
    event_id_header = "X-Id";
    event_type = "";
  };
}

abbrev office : Site ℕ String
office = record {
  enabled = true;
  queue_enabled = true;
  queue_max_attempts = pos 3;
  batch = 10;
  backoff_seconds = 30;
  max_backoff_seconds = 3600;
  environment = production;
  enterprise_settings = [];
  condition = λ expression values. holds true;
  policies = [];
  triggers = [];
  upper = λ s. s;
  lower = λ s. s;
  host_of = λ address. some "shop.example";
  join_url = λ base path. concat (base ∷ "/" ∷ path ∷ []);
  resolve_secret = λ reference. "s3cret";
  new_id = λ kind n. concat (kind ∷ "_" ∷ decimal n ∷ []);
  now = λ w. 1000;
  transport = λ w parcel. answered true none;
}

abbrev read_orders : Order String
read_orders = record {
  method = "GET";
  path = "orders";
  query = "";
  content = "";
  actor = "ana";
  environment = none;
  dry_run = false;
  preauthorized = true;
}

-- The second try of the job is the last one.
abbrev job : IntegrationJob String
job = record {
  id = "job_1";
  integration = "shop";
  method = "GET";
  path = "orders";
  query = "";
  content = "";
  status = JobStatus.pending;
  attempts = 1;
  max_attempts = pos 2;
  next_attempt = some 900;
  last_error = none;
  call_id = none;
  idempotency = none;
  actor = "ana";
}

abbrev desk : World String
desk = record {
  registry = ("shop", shop) ∷ [];
  rows = [];
  calls = [];
  jobs = job ∷ [];
  events = [];
  sent = [];
  trail = [];
  drawn = 0;
}

abbrev job-WellFormed : All WellFormed desk.jobs
job-WellFormed = ((omega arith, inr (omega arith)), tt)

call-Permitted_example :
    ((call office "shop" read_orders desk).1.sent ≡ [])
    ⊎ ((integration : Integration) × ((lookup "shop" desk.registry ≡ some integration)
          ⊎ (lookup "shop" desk.rows ≡ some integration))
        × ((call office "shop" read_orders desk).1.sent
            ≡ sending office integration (method_of office read_orders) read_orders ∷ [])
        × Permitted office integration (method_of office read_orders) read_orders)
call-Permitted_example = call-Permitted office "shop" read_orders desk

queue_step-WellFormed_example : All WellFormed (drain office none "runtime" desk).1.jobs
queue_step-WellFormed_example =
    queue_step-WellFormed office (omega arith) desk (drain office none "runtime" desk).1
      (drained none "runtime") job-WellFormed

wait_seconds-bounds_example :
    (wait_seconds 30 3600 2 ≤ 3600)
    × (wait_seconds 30 3600 2 ≤ wait_seconds 30 3600 (9 + 2))
    × (wait_seconds 30 3600 4 ≡ min (2 * wait_seconds 30 3600 3) 3600)
wait_seconds-bounds_example = wait_seconds-bounds 30 3600 2 9

abbrev delivery : Bool → Delivered
delivery genuine = record {
  header_id = λ header. some "order-7";
  payload_id = none;
  payload_type = "order.created";
  signed_by = λ secret. genuine;
}

-- A forged delivery makes the genuine one a duplicate.
receive_twice_example :
    ((receive office "shop"
        (delivery true)
        (receive office "shop" (delivery false) desk).1).0.status
      ≡ duplicate)
    × ((receive office "shop"
          (delivery true)
          (receive office "shop" (delivery false) desk).1).1.events
        ≡ (receive office "shop" (delivery false) desk).1.events)
    × ((receive office "shop"
          (delivery true)
          (receive office "shop" (delivery false) desk).1).1.trail
        ≡ (receive office "shop" (delivery false) desk).1.trail)
unfolding is_closed external_id_of lookup
receive_twice_example =
    receive_twice office shop "shop" "order-7" refl refl (delivery false) (delivery true) desk refl
      refl refl
