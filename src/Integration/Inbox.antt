-- ===== src/Integration/Inbox.antt =====
-- Incoming events: `receive` of src/egr/integrations/service.py, over `IntegrationEventRepository` of
-- src/egr/storage/repositories.py and `matches` of src/egr/runtime/triggers.py.
use enterprise_agi_runtime.Prelude.{
  suc, String, Bool, true, false, ◌&&◌, ◌||◌, not, Option, none, some, List, [], ◌∷◌, ◌++◌, ◌==◌,
  any, if◌then◌else◌,
}
use enterprise_agi_runtime.Prelude.Text.{starts_with, ends_with, drop_last, concat}
use enterprise_agi_runtime.Prelude.Exec.{Result, ok, err}
use enterprise_agi_runtime.Integration.{
  Integration, InboundEvent, EventStatus, received, duplicate, rejected, triggered, EventType,
  World, Site, log,
}
use enterprise_agi_runtime.Integration.Calls.{get}

-- `not integration.enabled or not inbound.enabled`
unfoldable pub is_closed : Integration → Bool
is_closed integration = not integration.enabled || not integration.inbound.enabled

-- What a webhook brings: the id of the event in the connector's header or in the payload, the type
-- that the payload names, and how the signature compares under a secret.
pub record Delivered : Type 0 where
  pub header_id : String → Option String
  pub payload_id : Option String
  pub payload_type : String
  pub signed_by : String → Bool

-- `matches`
unfoldable pub matches : Option String → String → Bool
matches none event_type = false
matches (some pattern) event_type =
    if pattern == ""
    then false
    else if pattern == "*"
    then true
    else if ends_with pattern ".*"
    then starts_with event_type (drop_last pattern)
    else pattern == event_type

abbrev pub is_received : EventStatus → Bool
is_received received = true
is_received _ = false

-- Whether a row has the id, for a connector.
unfoldable pub has_external : String → String → InboundEvent → Bool
has_external integration external_id row =
    (row.integration == integration)
    && elim row.external_id [ none ↦ false | some e ↦ e == external_id ]

-- `IntegrationEventRepository.exists`
unfoldable pub exists : String → String → List InboundEvent → Bool
exists integration external_id rows = any (has_external integration external_id) rows

-- `IntegrationEventRepository.save`: the index on (integration, external_id) lets each id in once,
-- and an error for another one is dropped.
unfoldable pub save_event : InboundEvent → List InboundEvent → List InboundEvent
save_event event rows = elim event.external_id [
  | none ↦ rows ++ event ∷ []
  | some external_id ↦
      if exists event.integration external_id rows then rows else rows ++ event ∷ []
]

abbrev pub new_event : String → Delivered → String → InboundEvent
new_event integration_id delivered id = record {
  id = id;
  integration = integration_id;
  external_id = none;
  event_type = delivered.payload_type;
  status = received;
  signature_ok = false;
}

-- `headers.get(…) or payload.get("id") or payload.get("event_id")`; an empty text counts as none.
unfoldable pub external_id_of : Integration → Delivered → Option String
external_id_of integration delivered =
    let or_payload : Option String = elim delivered.payload_id [
      | none ↦ none
      | some e ↦ if e == "" then none else some e
    ] in
    elim (delivered.header_id integration.inbound.event_id_header) [
      | none ↦ or_payload
      | some e ↦ if e == "" then or_payload else some e
    ]

unfoldable pub identified : Integration → Delivered → InboundEvent → InboundEvent
identified integration delivered event = record event {
  external_id = external_id_of integration delivered;
  event_type =
      if not (integration.inbound.event_type == "")
      then integration.inbound.event_type
      else if not (event.event_type == "")
      then event.event_type
      else concat ("integration." ∷ integration.id ∷ []);
}

module _ {Content : Type 0} where
  unfoldable pub is_known : Integration → InboundEvent → World Content → Bool
  is_known integration event w = elim event.external_id [
    | none ↦ false
    | some e ↦ exists integration.id e w.events
  ]

  -- `_publish`
  unfoldable pub publish : EventType → Integration → InboundEvent → World Content → World Content
  publish event_type integration event w =
      log event_type (concat ("integration:" ∷ integration.id ∷ [])) event.id w

module _ {N Content : Type 0} (site : Site N Content) where
  -- `_has_trigger`
  unfoldable pub has_trigger : String → Bool
  has_trigger event_type =
      any (λ trigger. trigger.enabled && matches trigger.event event_type) site.triggers

  unfoldable pub with_trigger : InboundEvent → InboundEvent
  with_trigger event =
      if is_received event.status && has_trigger event.event_type
      then record event { status = triggered }
      else event

  -- `_record_event`
  unfoldable pub record_event : InboundEvent → World Content → InboundEvent × World Content
  record_event event w =
      let recorded = with_trigger event in
      (recorded, record w { events = save_event recorded w.events })

  -- `resolve_secret(inbound.secret) if inbound.secret else ""`
  unfoldable pub secret_of : Integration → String
  secret_of integration =
      if integration.inbound.secret == ""
      then ""
      else site.resolve_secret integration.inbound.secret

  unfoldable pub accept : Integration → InboundEvent → World Content → InboundEvent × World Content
  accept integration event w =
      let (saved, after) = record_event event w in
      (saved, publish EventType.integration_event_received integration saved after)

  -- An event with an id that is new, or with none.
  unfoldable pub check_signature :
      Integration → Delivered → InboundEvent → World Content → InboundEvent × World Content
  check_signature integration delivered event w =
      let secret = secret_of integration in
      if secret == ""
      then accept integration (record event { signature_ok = false }) w
      else if delivered.signed_by secret
      then accept integration (record event { signature_ok = true }) w
      else let bad : InboundEvent = record event { signature_ok = false; status = rejected } in
        record_event bad (publish EventType.integration_event_rejected integration bad w)

  unfoldable pub receive_for :
      Integration → Delivered → InboundEvent → World Content → InboundEvent × World Content
  receive_for integration delivered event w =
      if is_closed integration
      then record_event (record event { status = rejected }) w
      else let named = identified integration delivered event in
        if is_known integration named w
        then record_event (record named { status = duplicate }) w
        else check_signature integration delivered named w

  -- By what `get` answers
  abbrev pub route :
      Delivered → InboundEvent → Result Integration × World Content → InboundEvent × World Content
  route delivered event (err e, w) = record_event (record event { status = rejected }) w
  route delivered event (ok integration, w) = receive_for integration delivered event w

  unfoldable pub receive : String → Delivered → World Content → InboundEvent × World Content
  receive integration_id delivered w =
      let drawn : World Content = record w { drawn = suc w.drawn } in
      let event = new_event integration_id delivered (site.new_id "event" w.drawn) in
      route delivered event (get site integration_id drawn)
