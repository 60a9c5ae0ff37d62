-- ===== src/Integration/Calls.antt =====
-- Calls of connectors: `ConnectorService.get` and `call` of src/egr/integrations/service.py, with
-- `assert_host_allowed` of src/egr/integrations/transports.py.
use Prim.Native.Char.{code}
use enterprise_agi_runtime.Prelude.{
  suc, eqb, String, Bool, true, false, ◌&&◌, ◌||◌, not, Option, none, some, List, [], ◌∷◌, ◌==◌,
  map, keep, contains, lookup, insert, if◌then◌else◌,
}
use enterprise_agi_runtime.Prelude.Exec.{Exec, config_error, not_found, ok, err, ◌>>=◌}
use enterprise_agi_runtime.Prelude.Text.{strip, starts_with, concat}
use enterprise_agi_runtime.Domain.{
  Environment, RiskLevel, allow, deny, require_approval, DecisionType,
}
use enterprise_agi_runtime.Policy.{Decision, text, boolean, ToolRequest, PolicyContext}
use enterprise_agi_runtime.Policy.Engine.{evaluate}
use enterprise_agi_runtime.Integration.{
  graphql, sql, kind_name, is_sql, read_operations, Integration, CallError, integrations_disabled,
  connector_disabled, connector_read_only, method_not_listed, without_dsn, without_host,
  host_not_listed, denied, approval_needed, transport_error, IntegrationCall, Sent, raised,
  answered, EventType, World, Site, log, IntegrationKind,
}

-- `s.split(" ", 1)[0]`
unfoldable pub before_space : String → String
before_space String.[] = String.[]
before_space (String.◌∷◌ c s) =
    let rest = before_space s in if eqb (code c) 32 then "" else String.◌∷◌ c rest

-- `s.rstrip("/")`
unfoldable pub without_slashes : String → String
without_slashes String.[] = String.[]
without_slashes (String.◌∷◌ c s) =
    let rest = without_slashes s in
    if (rest == "") && eqb (code c) 47 then "" else String.◌∷◌ c rest

-- What the caller of a connector asks for; `dry_run` and `preauthorized` are flags of `call`.
pub record Order (Content : Type 0) : Type 0 where
  pub method : String
  pub path : String
  pub query : String
  pub content : Content
  pub actor : String
  pub environment : Option Environment
  pub dry_run : Bool
  pub preauthorized : Bool

-- The verb that leaves: `graphql_call` posts, and `sql_call` has none.
unfoldable pub sent_method : IntegrationKind → String → String
sent_method kind method = elim kind [ graphql ↦ "POST" | sql ↦ "" | _ ↦ method ]

module _ {N Content : Type 0} (site : Site N Content) where
  -- `get`: a connector found in the table is kept in memory.
  unfoldable pub get : String → Exec (World Content) Integration
  get integration_id w = elim (lookup integration_id w.registry) [
    | some integration ↦ (ok integration, w)
    | none ↦ elim (lookup integration_id w.rows) [
      | none ↦ (err (config_error not_found), w)
      | some integration ↦ (
        ok integration,
        record w {
          registry = elim (lookup integration.id w.registry) [
            | none ↦ insert integration.id integration w.registry
            | some known ↦ w.registry
          ];
        },
      )
    ]
  ]

  -- `_operation`: the words of a GraphQL document start with `mutation` exactly where the stripped
  -- document does.
  unfoldable pub operation : Integration → String → String → String
  operation integration method query = elim integration.kind [
    | graphql ↦ if starts_with (site.lower (strip query)) "mutation" then "MUTATION" else "QUERY"
    | sql ↦
        let verb = site.upper (before_space (strip query)) in if verb == "" then "SELECT" else verb
    | _ ↦ method
  ]

  -- `Integration.allows_method`
  unfoldable pub allows_method : Integration → String → Bool
  allows_method integration method =
      contains (site.upper method)
        (map site.upper (keep (λ item. not (item == "")) integration.allowed_methods))

  -- `_url`
  unfoldable pub url : Integration → String → String
  url integration path =
      let base = without_slashes integration.base_url in
      if path == "" then base else if starts_with path "http" then path else site.join_url base path

  -- `assert_host_allowed`: what it raises
  unfoldable pub host_refusal : String → List String → Option CallError
  host_refusal address allowed = elim (site.host_of address) [
    | none ↦ some without_host
    | some host ↦
        if host == ""
        then some without_host
        else if contains (site.lower host)
            (map site.lower (keep (λ item. not (item == "")) allowed))
        then none
        else some host_not_listed
  ]

  -- `_precheck`: what it raises
  unfoldable pub precheck : Integration → String → String → String → Option CallError
  precheck integration method path query =
      if not site.enabled
      then some integrations_disabled
      else if not integration.enabled
      then some connector_disabled
      else if integration.read_only
          && not (contains (operation integration method query) read_operations)
      then some connector_read_only
      else if not (allows_method integration method) && not (is_sql integration.kind)
      then some method_not_listed
      else if is_sql integration.kind
      then if integration.dsn == "" then some without_dsn else none
      else host_refusal (url integration path) integration.allowed_hosts

  -- `_risk`
  unfoldable pub risk : Integration → String → RiskLevel
  risk integration op =
      if integration.read_only || contains op read_operations
      then RiskLevel.low
      else if integration.external
      then RiskLevel.high
      else RiskLevel.medium

  abbrev pub target_text : Integration → String
  target_text integration =
      if integration.base_url == ""
      then if integration.dsn == "" then "-" else integration.dsn
      else integration.base_url

  -- The request of `_authorize`
  unfoldable pub call_request : Integration → String → ToolRequest N
  call_request integration op = record {
    tool = concat ("integration." ∷ kind_name integration.kind ∷ []);
    args =
        ("integration", text integration.id)
        ∷ ("kind", text (kind_name integration.kind))
        ∷ ("method", text op)
        ∷ ("operation", text op)
        ∷ ("write", boolean (not (contains op read_operations)))
        ∷ ("read_only", boolean integration.read_only)
        ∷ ("external", boolean integration.external)
        ∷ ("host", text (elim (site.host_of integration.base_url) [ none ↦ "" | some h ↦ h ]))
        ∷ ("target", text (target_text integration))
        ∷ [];
    action = some "integration.call";
    task_id = none;
  }

  unfoldable pub call_context : Integration → String → Option Environment → PolicyContext N
  call_context integration op environment = record {
    environment = elim environment [ none ↦ site.environment | some e ↦ e ];
    agent = none;
    enterprise_settings = site.enterprise_settings;
    risk = risk integration op;
    security = ("external", boolean integration.external) ∷ [];
    extra = [];
  }

  -- `_authorize`
  unfoldable pub authorize : Integration → String → Option Environment → Decision
  authorize integration op environment =
      evaluate site.condition site.policies (call_request integration op)
        (call_context integration op environment)

  -- Where the policy stands on a call: the rule and the verdict that the record keeps, and what
  -- refuses it.
  unfoldable pub policy_refusal : Decision → Option CallError
  policy_refusal d = elim d.decision [
    | allow ↦ none
    | deny ↦ some (denied d.reason)
    | require_approval ↦ some (approval_needed d.reason)
  ]

  abbrev pub is_allow : DecisionType → Bool
  is_allow allow = true
  is_allow _ = false

  unfoldable pub new_call : Integration → String → Order Content → String → IntegrationCall
  new_call integration op order id = record {
    id = id;
    integration = integration.id;
    method = op;
    ok = false;
    decision = "";
    approved = none;
    error = none;
    actor = order.actor;
  }

  -- The decision of the policy, or of the caller who has it already.
  unfoldable pub decided : Integration → String → Order Content → IntegrationCall → IntegrationCall
  decided integration op order call =
      if order.preauthorized
      then record call { decision = "integration.call (autorizado no plano)"; approved = some true }
      else let d = authorize integration op order.environment in
        record call {
          decision = elim d.rule_id [ none ↦ "-" | some rule ↦ if rule == "" then "-" else rule ];
          approved = some (is_allow d.decision);
        }

  unfoldable pub refusal : Integration → String → Order Content → Option CallError
  refusal integration op order =
      if order.preauthorized
      then none
      else policy_refusal (authorize integration op order.environment)

  -- `error or result.error or ""`
  abbrev pub or_reported : Option CallError → Option String → Option CallError
  or_reported (some why) reported = some why
  or_reported none none = none
  or_reported none (some why) = if why == "" then none else some (transport_error why)

  -- `_finish`: the call is stored and recorded. What the answer itself reports does not make the call
  -- fail.
  unfoldable pub finish :
      IntegrationCall
      → Bool
      → Option CallError
      → Option String
      → Bool
      → World Content
      → IntegrationCall × World Content
  finish call answer_ok error reported refused w =
      let ended : IntegrationCall = record call {
        ok = answer_ok && elim error [ none ↦ true | some e ↦ false ];
        error = or_reported error reported;
      } in
      (
        ended,
        log (if refused then EventType.integration_denied else EventType.integration_called)
            ended.actor ended.id (record w { calls = ended ∷ w.calls }),
      )

  -- `_execute`
  unfoldable pub sending : Integration → String → Order Content → Sent Content
  sending integration method order = record {
    integration = integration;
    method = sent_method integration.kind method;
    path = order.path;
    target = if is_sql integration.kind then integration.dsn else url integration order.path;
    query = order.query;
    content = order.content;
  }

  unfoldable pub transmit :
      IntegrationCall → Sent Content → World Content → IntegrationCall × World Content
  transmit call parcel w =
      let after : World Content = record w { sent = parcel ∷ w.sent } in
      elim (site.transport w parcel) [
        | raised why ↦ finish call false (some (transport_error why)) none false after
        | answered answer_ok why ↦ finish call answer_ok none why false after
      ]

  -- `if dry_run`
  unfoldable pub deliver :
      Bool → IntegrationCall → Sent Content → World Content → IntegrationCall × World Content
  deliver true made parcel w = finish made true none none false w
  deliver false made parcel w = transmit made parcel w

  -- After the checks of the connector.
  unfoldable pub after_checks :
      Integration
      → String
      → Order Content
      → IntegrationCall
      → World Content
      → IntegrationCall × World Content
  after_checks integration method order call w =
      let op = operation integration method order.query in
      elim (refusal integration op order) [
        | some why ↦ finish (decided integration op order call) false (some why) none true w
        | none ↦
            deliver order.dry_run (decided integration op order call)
              (sending integration method order) w
      ]

  -- `(method or "GET").upper()`
  abbrev pub method_of : Order Content → String
  method_of order = site.upper (if order.method == "" then "GET" else order.method)

  unfoldable pub attempt_call :
      Integration → Order Content → World Content → IntegrationCall × World Content
  attempt_call integration order w =
      let method = method_of order in
      let op = operation integration method order.query in
      let call = new_call integration op order (site.new_id "call" w.drawn) in
      let drawn : World Content = record w { drawn = suc w.drawn } in
      elim (precheck integration method order.path order.query) [
        | some why ↦ finish (record call { decision = "conector" }) false (some why) none true drawn
        | none ↦ after_checks integration method order call drawn
      ]

  unfoldable pub call : String → Order Content → Exec (World Content) IntegrationCall
  call integration_id order = do
    integration ← get integration_id
    λ w. let (made, after) = attempt_call integration order w in (ok made, after)
