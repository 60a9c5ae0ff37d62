-- ===== src/Integration/Once.antt =====
-- An external id is accepted once: `receive` of src/egr/integrations/service.py.
use mathlib.Core.Path.{subst}
use enterprise_agi_runtime.Prelude.{
  suc, String, ◌≡◌, refl, ◌∙◌, ap, true, false, Bool-cases, inl, inr, some, List, [], ◌∷◌, ◌==◌,
  any-append, lookup, arith, eq_refl, if◌then◌else◌,
}
use enterprise_agi_runtime.Prelude.Exec.{ok}
use enterprise_agi_runtime.Integration.{
  Integration, InboundEvent, duplicate, rejected, World, Site, log,
}
use enterprise_agi_runtime.Integration.Calls.{get}
use enterprise_agi_runtime.Integration.Inbox.{
  Delivered, has_external, exists, save_event, with_trigger, record_event, publish, new_event,
  external_id_of, identified, is_known, secret_of, accept, check_signature, receive_for, receive,
  is_closed, route,
}

exists-save_event :
    (event : InboundEvent) (external_id : String) (rows : List InboundEvent)
    → event.external_id ≡ some external_id
    → exists event.integration external_id (save_event event rows) ≡ true
unfolding exists has_external save_event
exists-save_event event external_id rows e =
    elim (Bool-cases (exists event.integration external_id rows)) [
      | inl known ↦ rw (save_event, e, known) known
      | inr fresh ↦
          rw (save_event, e, fresh)
            (ground (
              arith,
              any-append (has_external event.integration external_id) rows (event ∷ []),
              eq_refl event.integration,
              eq_refl external_id,
            ))
    ]

-- A row that is refused by the index leaves the table as it is.
save_event-known :
    (event : InboundEvent) (external_id : String) (rows : List InboundEvent)
    → event.external_id ≡ some external_id
    → exists event.integration external_id rows ≡ true
    → save_event event rows ≡ rows
unfolding save_event
save_event-known event external_id rows e known = rw (save_event, e, known) refl

module _ {N Content : Type 0} (site : Site N Content) (integration : Integration)
    (integration_id external_id : String) (named : integration.id ≡ integration_id) where
  with_trigger-keeps :
      (event : InboundEvent)
      → ((with_trigger site event).integration ≡ event.integration)
        × ((with_trigger site event).external_id ≡ event.external_id)
  unfolding with_trigger
  with_trigger-keeps event = (ground arith, ground arith)

  -- Recording an event under the id makes the id known.
  record_event-known :
      (event : InboundEvent) (w : World Content)
      → event.integration ≡ integration_id
      → event.external_id ≡ some external_id
      → exists integration_id external_id (record_event site event w).1.events ≡ true
  unfolding record_event
  record_event-known event w i e =
      let kept = with_trigger-keeps event in
      subst (λ x. exists x external_id (save_event (with_trigger site event) w.events) ≡ true)
        (kept.0 ∙ i) (exists-save_event (with_trigger site event) external_id w.events (kept.1 ∙ e))

  check_signature-known :
      (delivered : Delivered) (event : InboundEvent) (w : World Content)
      → event.integration ≡ integration_id
      → event.external_id ≡ some external_id
      → exists integration_id external_id
          (check_signature site integration delivered event w).1.events
        ≡ true
  unfolding check_signature accept publish log
  check_signature-known delivered event w i e =
      elim (Bool-cases (secret_of site integration == "")) [
        | inl open_door ↦
            rw (check_signature, open_door)
              (record_event-known (record event { signature_ok = false }) w i e)
        | inr locked ↦ elim (Bool-cases (delivered.signed_by (secret_of site integration))) [
          | inl good ↦
              rw (check_signature, locked, good)
                (record_event-known (record event { signature_ok = true }) w i e)
          | inr bad ↦
              rw (check_signature, locked, bad)
                (record_event-known (record event { signature_ok = false; status = rejected }) _ i
                  e)
        ]
      ]

  abbrev Carries : Delivered → Type 0
  Carries delivered = external_id_of integration delivered ≡ some external_id

  abbrev named_event : Delivered → String → InboundEvent
  named_event delivered id =
      identified integration delivered (new_event integration_id delivered id)

  get-known :
      (v : World Content)
      → lookup integration_id v.registry ≡ some integration
      → get site integration_id v ≡ (ok integration, v)
  unfolding get
  get-known v known = rw (get, known) refl

  let_in :
      (delivered : Delivered) (event : InboundEvent) (v : World Content)
      → is_closed integration ≡ false
      → receive_for site integration delivered event v ≡ (
          let named_by = identified integration delivered event in
          if is_known integration named_by v
          then record_event site (record named_by { status = duplicate }) v
          else check_signature site integration delivered named_by v)
  unfolding receive_for
  let_in delivered event v takes = rw (receive_for, takes) refl

  -- An open connector hands the event on with its id.
  receive_for-known :
      (delivered : Delivered) (w : World Content)
      → lookup integration_id w.registry ≡ some integration
      → is_closed integration ≡ false
      → receive site integration_id delivered w ≡ (
          let event = named_event delivered (site.new_id "event" w.drawn) in
          let v : World Content = record w { drawn = suc w.drawn } in
          if is_known integration event v
          then record_event site (record event { status = duplicate }) v
          else check_signature site integration delivered event v)
  unfolding receive
  receive_for-known delivered w known takes =
      let event = new_event integration_id delivered (site.new_id "event" w.drawn) in
      let v : World Content = record w { drawn = suc w.drawn } in
      ap (route site delivered event) (get-known v known) ∙ let_in delivered event v takes

  is_known-exists :
      (delivered : Delivered) (id : String) (w : World Content)
      → Carries delivered
      → is_known integration (named_event delivered id) w
        ≡ exists integration_id external_id w.events
  unfolding is_known identified
  is_known-exists delivered id w carries = rw (carries, named) refl

  module _ (takes : is_closed integration ≡ false) where
    receive-known :
        (delivered : Delivered) (w : World Content)
        → lookup integration_id w.registry ≡ some integration
        → Carries delivered
        → exists integration_id external_id (receive site integration_id delivered w).1.events
          ≡ true
    unfolding identified
    receive-known delivered w known carries =
        let event = named_event delivered (site.new_id "event" w.drawn) in
        let v : World Content = record w { drawn = suc w.drawn } in
        rw (receive_for-known delivered w known takes)
          (elim (Bool-cases (is_known integration event v)) [
            | inl old ↦
                rw old (record_event-known (record event { status = duplicate }) v refl carries)
            | inr new ↦ rw new (check_signature-known delivered event v refl carries)
          ])

    -- A delivery with an id that the table has is recorded nowhere and published nowhere.
    receive-duplicate :
        (delivered : Delivered) (w : World Content)
        → lookup integration_id w.registry ≡ some integration
        → Carries delivered
        → exists integration_id external_id w.events ≡ true
        → ((receive site integration_id delivered w).0.status ≡ duplicate)
          × ((receive site integration_id delivered w).1.events ≡ w.events)
          × ((receive site integration_id delivered w).1.trail ≡ w.trail)
    unfolding record_event identified with_trigger
    receive-duplicate delivered w known carries old =
        let id = site.new_id "event" w.drawn in
        let event = named_event delivered id in
        let v : World Content = record w { drawn = suc w.drawn } in
        rw (receive_for-known delivered w known takes, is_known-exists delivered id v carries ∙ old)
          (
            refl,
            save_event-known (record event { status = duplicate }) external_id w.events carries old,
            refl,
          )

    check_signature-registry :
        (delivered : Delivered) (event : InboundEvent) (w : World Content)
        → (check_signature site integration delivered event w).1.registry ≡ w.registry
    unfolding check_signature accept publish record_event log
    check_signature-registry delivered event w = ground arith

    receive-registry :
        (delivered : Delivered) (w : World Content)
        → lookup integration_id w.registry ≡ some integration
        → (receive site integration_id delivered w).1.registry ≡ w.registry
    unfolding record_event
    receive-registry delivered w known =
        let event = named_event delivered (site.new_id "event" w.drawn) in
        let v : World Content = record w { drawn = suc w.drawn } in
        rw (receive_for-known delivered w known takes)
          (elim (Bool-cases (is_known integration event v)) [
            | inl old ↦ rw old refl
            | inr new ↦ rw new (check_signature-registry delivered event v)
          ])

    -- After a delivery under an id to a connector that takes events, the next delivery under this id is
    -- a duplicate, which changes neither the table of events nor the trail, whatever the signatures
    -- are: also where the first one was refused for its signature.
    pub receive_twice :
        (first second : Delivered) (w : World Content)
        → lookup integration_id w.registry ≡ some integration
        → Carries first
        → Carries second
        → (let v = (receive site integration_id first w).1 in
            ((receive site integration_id second v).0.status ≡ duplicate)
            × ((receive site integration_id second v).1.events ≡ v.events)
            × ((receive site integration_id second v).1.trail ≡ v.trail))
    receive_twice first second w known carries_first carries_second =
        receive-duplicate second (receive site integration_id first w).1
          (ap (λ d. lookup integration_id d) (receive-registry first w known) ∙ known)
          carries_second (receive-known first w known carries_first)
