-- ===== src/Proposals/Payloads.antt =====
-- What the payload of a decision says (proposals/service.py).
use oscillink_agent.Base.{
  String, ◌≡◌, refl, true, false, ◌||◌, none, some, [], ◌∷◌, arith, ◌==◌, string_eq,
  string_discrete, nat_eq, list_eq, DecEq,
}
use oscillink_agent.Domain.Json.{Fields, text, get_field, field_is}
use oscillink_agent.Domain.Vocabulary.{EventType, event_type_eq}
use oscillink_agent.Domain.Events.{Event}
use oscillink_agent.Proposals.{Projection, text_of, decides, parse_state, awaiting}
use oscillink_agent.Proposals.Decisions.{
  Verdict, approve, reject, verdict_text, verdict_type, verdict_state, decision_payload,
  DecisionCall, Services, is_same_decision, decision_event,
}

pub eq_refl : {A : Type 0} ⦃e : DecEq A⦄ (a : A) → (a == a) ≡ true
eq_refl a = ground arith

-- The fields of the payload, each under its name.
module _ (q : DecisionCall) (target : String) where
  abbrev payload : Fields
  payload = decision_payload q target

  payload-operation : get_field "operation" payload ≡ some (text "artifact_association_review")
  unfolding get_field string_discrete
  payload-operation = refl

  payload-proposal_id : get_field "proposal_id" payload ≡ some (text q.proposal_id)
  unfolding get_field string_discrete
  payload-proposal_id = refl

  payload-decision : get_field "decision" payload ≡ some (text (verdict_text q.decision))
  unfolding get_field string_discrete
  payload-decision = refl

  field_is-found :
      (key s : String) (fs : Fields) → get_field key fs ≡ some (text s) → field_is key s fs ≡ true
  unfolding field_is
  field_is-found key s fs e = rw (field_is, e) (eq_refl s)

is_review :
    (v : Verdict)
    → (verdict_type v == EventType.approval || verdict_type v == EventType.retraction) ≡ true
unfolding oscillink_agent.Domain.Vocabulary.event_type_discrete
is_review approve = refl
is_review reject = refl

not_proposal : (v : Verdict) → (verdict_type v == EventType.memory_proposal) ≡ false
unfolding oscillink_agent.Domain.Vocabulary.event_type_discrete
not_proposal approve = refl
not_proposal reject = refl

verdict_parsed : (v : Verdict) → parse_state (verdict_text v) ≡ some (verdict_state v)
unfolding parse_state string_discrete
verdict_parsed approve = refl
verdict_parsed reject = refl

module _ (services : Services) (q : DecisionCall) (before : Projection) (event : Event) where
  abbrev d : Event
  d = decision_event services q before event

  pub decides-decision_event :
      (id : String)
      → decides services.show id (decision_event services q before event) ≡ (q.proposal_id == id)
  unfolding decides decision_event text_of
  decides-decision_event id =
      rw
        (
          field_is-found q before.target_record_id "operation" "artifact_association_review"
              (decision_payload q before.target_record_id)
              (payload-operation q before.target_record_id),
          is_review q.decision,
          payload-proposal_id q before.target_record_id,
        )
        refl

  pub same-decision_event : is_same_decision q (decision_event services q before event) ≡ true
  unfolding is_same_decision decision_event
  same-decision_event =
      rw
        (
          eq_refl q.request_id,
          eq_refl q.observed_at,
          eq_refl q.actor_id,
          eq_refl (verdict_type q.decision),
          eq_refl (q.proposal_id ∷ []),
          field_is-found q before.target_record_id "operation" "artifact_association_review"
              (decision_payload q before.target_record_id)
              (payload-operation q before.target_record_id),
          field_is-found q before.target_record_id "proposal_id" q.proposal_id
              (decision_payload q before.target_record_id)
              (payload-proposal_id q before.target_record_id),
          field_is-found q before.target_record_id "decision" (verdict_text q.decision)
              (decision_payload q before.target_record_id)
              (payload-decision q before.target_record_id),
        )
        refl

  pub state-decision_event :
      parse_state (
        text_of services.show
          (get_field "decision" (decision_event services q before event).payload))
      ≡ some (verdict_state q.decision)
  unfolding decision_event text_of
  state-decision_event = rw (payload-decision q before.target_record_id) (verdict_parsed q.decision)

  pub awaiting-decision_event : awaiting (decision_event services q before event) ≡ none
  unfolding awaiting decision_event
  awaiting-decision_event = rw (not_proposal q.decision) refl

  pub not_imported :
      field_is "operation" "artifact_import" (decision_event services q before event).payload
      ≡ false
  unfolding field_is decision_event get_field string_discrete
  not_imported = refl
