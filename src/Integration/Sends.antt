-- ===== src/Integration/Sends.antt =====
-- What leaves the organisation: `ConnectorService.call` of src/egr/integrations/service.py with the
-- policy engine.
use enterprise_agi_runtime.Prelude.{
  String, Bool, ◌≡◌, refl, ◌⊎◌, inl, inr, true, false, not, none, some, List, ◌∷◌, map, keep,
  contains, ◌==◌, lookup, arith, Option-cases, Bool-cases, ap, ◌∙◌,
}
use enterprise_agi_runtime.Prelude.Exec.{ok, Result-cases}
use enterprise_agi_runtime.Policy.Soundness.{Justified, evaluate-allow-Justified}
use enterprise_agi_runtime.Integration.{
  is_sql, read_operations, Integration, IntegrationCall, Sent, Delivery, raised, answered, World,
  Site, log, IntegrationKind, graphql, rest, sql, webhook,
}
use enterprise_agi_runtime.Integration.Calls.{
  Order, get, operation, allows_method, url, host_refusal, precheck, call_request, call_context,
  authorize, policy_refusal, decided, refusal, finish, sending, transmit, after_checks,
  attempt_call, call, deliver, method_of, sent_method,
}

module _ {N Content : Type 0} (site : Site N Content) where
  -- The call of a connector that its declaration, the configuration and the policies let through.
  pub record Permitted (integration : Integration) (method : String) (order : Order Content)
      : Type 0 where
    pub configured : site.enabled ≡ true
    pub enabled : integration.enabled ≡ true
    pub reading :
        (integration.read_only ≡ false)
        ⊎ (contains (operation site integration method order.query) read_operations ≡ true)
    pub method_listed :
        (allows_method site integration method ≡ true) ⊎ (is_sql integration.kind ≡ true)
    pub sent_listed :
        (allows_method site integration (sending site integration method order).method ≡ true)
        ⊎ ((is_sql integration.kind ≡ true)
            ⊎ ((integration.kind ≡ graphql)
                × ((sending site integration method order).method ≡ "POST")))
    pub host_listed :
        (is_sql integration.kind ≡ true)
        ⊎ ((host : String) × (site.host_of (url site integration order.path) ≡ some host)
            × (contains
                  (site.lower host)
                  (map site.lower (keep (λ item. not (item == "")) integration.allowed_hosts))
                ≡ true))
    pub wet : order.dry_run ≡ false
    pub authorized :
        (order.preauthorized ≡ true)
        ⊎ Justified site.condition
            (call_request site integration (operation site integration method order.query))
            (call_context site integration
              (operation site integration method order.query)
              order.environment)
            site.policies

  module _ (integration : Integration) (method : String) (order : Order Content) where
    abbrev Checked : Type 0
    Checked = precheck site integration method order.path order.query ≡ none

    checked-tests :
        Checked
        → (site.enabled ≡ true)
          × (integration.enabled ≡ true)
          × ((integration.read_only ≡ false)
              ⊎ (contains (operation site integration method order.query) read_operations ≡ true))
          × ((allows_method site integration method ≡ true) ⊎ (is_sql integration.kind ≡ true))
          × ((is_sql integration.kind ≡ true)
              ⊎ (host_refusal site (url site integration order.path) integration.allowed_hosts
                  ≡ none))
    unfolding precheck
    checked-tests h = (ground arith, ground arith, ground arith, ground arith, ground arith)

    host_passes :
        (address : String) (allowed : List String)
        → host_refusal site address allowed ≡ none
        → (host : String) × (site.host_of address ≡ some host)
          × (contains (site.lower host) (map site.lower (keep (λ item. not (item == "")) allowed))
              ≡ true)
    unfolding host_refusal
    host_passes address allowed h = elim (Option-cases (site.host_of address)) [
      | inl e ↦ absurd (ground arith)
      | inr (host, e) ↦ (host, e, ground arith)
    ]

    unrefused :
        refusal site integration (operation site integration method order.query) order ≡ none
        → (order.preauthorized ≡ true)
          ⊎ Justified site.condition
              (call_request site integration (operation site integration method order.query))
              (call_context site integration
                (operation site integration method order.query)
                order.environment)
              site.policies
    unfolding refusal policy_refusal authorize
    unrefused h = elim (Bool-cases order.preauthorized) [
      | inl e ↦ inl e
      | inr e ↦
          let op = operation site integration method order.query in
          inr (
            evaluate-allow-Justified site.condition (call_request site integration op)
              (call_context site integration op order.environment) site.policies (ground arith))
    ]

    transmit-sent :
        (made : IntegrationCall) (parcel : Sent Content) (w : World Content)
        → (transmit site made parcel w).1.sent ≡ parcel ∷ w.sent
    unfolding transmit finish log
    transmit-sent made parcel w = by_delivery (site.transport w parcel) refl
      where
        by_delivery :
            (d : Delivery)
            → site.transport w parcel ≡ d
            → (transmit site made parcel w).1.sent ≡ parcel ∷ w.sent
        by_delivery (raised why) e = rw (transmit, e) refl
        by_delivery (answered answer_ok why) e = rw (transmit, e) refl

    deliver-sent :
        (dry : Bool) (made : IntegrationCall) (parcel : Sent Content) (w : World Content)
        → ((deliver site dry made parcel w).1.sent ≡ w.sent)
          ⊎ ((dry ≡ false) × ((deliver site dry made parcel w).1.sent ≡ parcel ∷ w.sent))
    unfolding deliver finish log
    deliver-sent true made parcel w = inl refl
    deliver-sent false made parcel w = inr (refl, transmit-sent made parcel w)

    -- Nothing is sent, or one permitted call.
    abbrev pub AtMostOne : World Content → World Content → Type 0
    AtMostOne w v =
        (v.sent ≡ w.sent)
        ⊎ ((v.sent ≡ sending site integration method order ∷ w.sent)
            × Permitted integration method order)

    kinds :
        (allows_method site integration method ≡ true) ⊎ (is_sql integration.kind ≡ true)
        → (allows_method site integration (sending site integration method order).method ≡ true)
          ⊎ ((is_sql integration.kind ≡ true)
              ⊎ ((integration.kind ≡ graphql)
                  × ((sending site integration method order).method ≡ "POST")))
    unfolding sending sent_method
    kinds (inr structured) = inr (inl structured)
    kinds (inl listed) = by_kind integration.kind
      where
        by_kind :
            (kind : IntegrationKind)
            → (allows_method site integration (sent_method kind method) ≡ true)
              ⊎ ((is_sql kind ≡ true) ⊎ ((kind ≡ graphql) × (sent_method kind method ≡ "POST")))
        by_kind graphql = inr (inr (refl, refl))
        by_kind sql = inr (inl refl)
        by_kind rest = inl listed
        by_kind webhook = inl listed

    allowed :
        Checked
        → order.dry_run ≡ false
        → refusal site integration (operation site integration method order.query) order ≡ none
        → Permitted integration method order
    allowed checked wet e =
        let (configured, enabled, reading, listed, host) = checked-tests checked in
        record {
          configured = configured;
          enabled = enabled;
          reading = reading;
          method_listed = listed;
          sent_listed = kinds listed;
          host_listed = elim host [
            | inl sql_kind ↦ inl sql_kind
            | inr passes ↦
                inr (host_passes (url site integration order.path) integration.allowed_hosts passes)
          ];
          wet = wet;
          authorized = unrefused e;
        }

    after_checks-AtMostOne :
        (made : IntegrationCall) (w : World Content)
        → Checked
        → AtMostOne w (after_checks site integration method order made w).1
    unfolding after_checks finish log
    after_checks-AtMostOne made w checked =
        let op = operation site integration method order.query in
        elim (Option-cases (refusal site integration op order)) [
          | inr (why, e) ↦ rw (after_checks, e) (inl refl)
          | inl e ↦
              let kept = decided site integration op order made in
              let parcel = sending site integration method order in
              rw (after_checks, e)
                (elim (deliver-sent order.dry_run kept parcel w) [
                  | inl same ↦ inl same
                  | inr (wet, sent) ↦ inr (sent, allowed checked wet e)
                ])
        ]

  attempt_call-AtMostOne :
      (integration : Integration) (order : Order Content) (w : World Content)
      → AtMostOne integration
          (method_of site order)
          order
          w
          (attempt_call site integration order w).1
  unfolding attempt_call finish log
  attempt_call-AtMostOne integration order w =
      let method = method_of site order in
      elim (Option-cases (precheck site integration method order.path order.query)) [
        | inr (why, e) ↦ rw (attempt_call, e) (inl refl)
        | inl e ↦ rw (attempt_call, e) (after_checks-AtMostOne integration method order _ _ e)
      ]

  get-declared :
      (integration_id : String) (w : World Content)
      → ((get site integration_id w).1.sent ≡ w.sent)
        × ((integration : Integration)
            → (get site integration_id w).0 ≡ ok integration
            → (lookup integration_id w.registry ≡ some integration)
              ⊎ (lookup integration_id w.rows ≡ some integration))
  unfolding get
  get-declared integration_id w = elim (Option-cases (lookup integration_id w.registry)) [
    | inr (found, e) ↦ rw (get, e) (refl, λ integration h. inl cc)
    | inl e ↦ elim (Option-cases (lookup integration_id w.rows)) [
      | inr (found, e') ↦ rw (get, e, e') (refl, λ integration h. inr cc)
      | inl e' ↦ rw (get, e, e') (refl, λ integration h. absurd (cc))
    ]
  ]

  -- A call of a connector leaves the organisation at most once, and then only if the integrations and
  -- the connector, which is declared, are enabled, a read-only connector is asked for a reading
  -- operation, the host and the method that is asked for are on the connector's lists (for all but
  -- SQL), it is no dry run, and the caller was authorized before or a policy permits the call. The
  -- method that leaves is on the list too, but for GraphQL, which posts whatever the list says.
  pub call-Permitted :
      (integration_id : String) (order : Order Content) (w : World Content)
      → ((call site integration_id order w).1.sent ≡ w.sent)
        ⊎ ((integration : Integration) × ((lookup integration_id w.registry ≡ some integration)
              ⊎ (lookup integration_id w.rows ≡ some integration))
            × ((call site integration_id order w).1.sent
                ≡ sending site integration (method_of site order) order ∷ w.sent)
            × Permitted integration (method_of site order) order)
  unfolding call
  call-Permitted integration_id order w =
      let (same, declared) = get-declared integration_id w in
      elim (Result-cases (get site integration_id w).0) [
        | inr (why, e) ↦ rw (call, e) (inl same)
        | inl (integration, e) ↦
            rw (call, e)
              (elim (attempt_call-AtMostOne integration order (get site integration_id w).1) [
                | inl kept ↦ inl (kept ∙ same)
                | inr (sent, permitted) ↦ inr (
                  integration,
                  declared integration e,
                  sent ∙ ap (λ l. sending site integration (method_of site order) order ∷ l) same,
                  permitted,
                )
              ])
      ]
