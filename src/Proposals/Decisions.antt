-- ===== src/Proposals/Decisions.antt =====
-- `decide_memory_proposal` of proposals/service.py.
use oscillink_agent.Base.{
  ℕ, String, Bool, ◌&&◌, Option, none, some, List, [], ◌∷◌, ◌==◌, string_eq, nat_eq, option_eq,
  list_eq, Result, ok, err, Action, if◌then◌else◌,
}
use oscillink_agent.Domain.Json.{Json, Fields, no_fields, field, text, field_is}
use oscillink_agent.Domain.Vocabulary.{human, human_verified, EventType, event_type_eq}
use oscillink_agent.Domain.Events.{Event, is_valid_event}
use oscillink_agent.Ledger.{
  Codec, Row, LedgerError, constraint_error, get, get_by_idempotency, append_many,
}
use oscillink_agent.Proposals.{
  State, pending_review, state_eq, Projection, ProposalError, validation_error, runtime_error,
  ledger, idempotency_conflict, already_resolved, not_found, unreadable, projection,
}

-- `decision` of `MemoryProposalDecisionRequest`
pub data Verdict : Type 0 where
  approve reject : Verdict

-- `MemoryProposalDecisionRequest` with the other arguments; `now` is what `datetime.now` returns.
pub record DecisionCall : Type 0 where
  pub proposal_id : String
  pub request_id : String
  pub observed_at : ℕ
  pub decision : Verdict
  pub idempotency_key : String
  pub actor_id : String
  pub now : ℕ

abbrev pub verdict_text : Verdict → String
verdict_text approve = "approved"
verdict_text reject = "rejected"

abbrev pub verdict_state : Verdict → State
verdict_state approve = State.approved
verdict_state reject = State.rejected

abbrev pub verdict_type : Verdict → EventType
verdict_type approve = EventType.approval
verdict_type reject = EventType.retraction

abbrev pub decision_payload : DecisionCall → String → Fields
decision_payload q target = field "operation" (text "artifact_association_review") (
    field "proposal_id" (text q.proposal_id) (
      field "decision" (text (verdict_text q.decision))
        (field "target_record_id" (text target) no_fields)))

-- The library's part: `str`, the store, `canonical_payload_hash` and the length of the canonical
-- payload.
pub record Services : Type 0 where
  pub show : Option Json → String
  pub codec : Codec
  pub payload_hash : Fields → String
  pub payload_bytes : Fields → ℕ

abbrev pub ProposalCall : Type 0
ProposalCall = Action (List Row) ProposalError Projection

-- Whether an event of the key is the decision that is asked for.
unfoldable pub is_same_decision : DecisionCall → Event → Bool
is_same_decision q e =
    e.id == q.request_id
    && e.observed_at == q.observed_at
    && e.actor.id == q.actor_id
    && e.event_type == verdict_type q.decision
    && e.causal_parent_ids == q.proposal_id ∷ []
    && field_is "operation" "artifact_association_review" e.payload
    && field_is "proposal_id" q.proposal_id e.payload
    && field_is "decision" (verdict_text q.decision) e.payload

module _ (services : Services) where
  -- The `Event` of a decision on the proposal that an event of the ledger made.
  unfoldable pub decision_event : DecisionCall → Projection → Event → Event
  decision_event q p e = record {
    id = q.request_id;
    session_id = e.session_id;
    run_id = e.run_id;
    task_id = e.task_id;
    actor = record { id = q.actor_id; kind = human };
    event_type = verdict_type q.decision;
    observed_at = q.observed_at;
    recorded_at = q.now;
    payload_hash = services.payload_hash (decision_payload q p.target_record_id);
    artifact_refs = e.artifact_refs;
    causal_parent_ids = q.proposal_id ∷ [];
    trust_class = human_verified;
    sensitivity = e.sensitivity;
    payload = decision_payload q p.target_record_id;
    model_identity = none;
  }

  abbrev pub replayed :
      DecisionCall
      → Event
      → Result ProposalError (Option Projection)
      → Result ProposalError Projection
  replayed q e (err x) = err x
  replayed q e (ok none) = err idempotency_conflict
  replayed q e (ok (some p)) =
      if p.state == verdict_state q.decision && p.decision_event_id == some e.id
      then ok p
      else err idempotency_conflict

  -- The answer where an event has the key.
  unfoldable pub replay : DecisionCall → Event → List Row → Result ProposalError Projection
  unfolding is_same_decision
  replay q e rows =
      if is_same_decision q e
      then replayed q e (projection services.show services.codec q.proposal_id rows)
      else err idempotency_conflict

  abbrev pub resolved :
      DecisionCall → Result ProposalError (Option Projection) → Result ProposalError Projection
  resolved q (err x) = err x
  resolved q (ok none) = err runtime_error
  resolved q (ok (some p)) = if p.state == verdict_state q.decision then ok p else err runtime_error

  abbrev pub append_error : LedgerError → ProposalError
  append_error constraint_error = already_resolved
  append_error (LedgerError.idempotency_conflict key) = idempotency_conflict
  append_error x = ledger x

  abbrev pub appended :
      DecisionCall
      → Result LedgerError (List String) × List Row
      → Result ProposalError Projection × List Row
  appended q (err x, rows) = (err (append_error x), rows)
  appended q (ok ids, rows) =
      (resolved q (projection services.show services.codec q.proposal_id rows), rows)

  unfoldable pub append_decision : DecisionCall → Event → ProposalCall
  append_decision q d rows =
      if is_valid_event services.payload_hash services.payload_bytes d
      then appended q (append_many services.codec ((d, q.idempotency_key) ∷ []) rows)
      else (err validation_error, rows)

  -- From `events.get(proposal_id)` on.
  unfoldable pub decide_found :
      DecisionCall → Projection → Result LedgerError (Option Event) → ProposalCall
  unfolding decision_event append_decision
  decide_found q p (err x) rows = (err (ledger x), rows)
  decide_found q p (ok none) rows = (err unreadable, rows)
  decide_found q p (ok (some e)) rows = append_decision q (decision_event q p e) rows

  unfoldable pub decide_projected :
      DecisionCall → Result ProposalError (Option Projection) → ProposalCall
  unfolding decide_found
  decide_projected q (err x) rows = (err x, rows)
  decide_projected q (ok none) rows = (err not_found, rows)
  decide_projected q (ok (some p)) rows =
      if p.state == pending_review
      then decide_found q p (get services.codec q.proposal_id rows) rows
      else (err already_resolved, rows)

  -- From the look-up of the key on.
  unfoldable pub decide_unless : DecisionCall → Result LedgerError (Option Event) → ProposalCall
  unfolding decide_projected replay
  decide_unless q (err x) rows = (err (ledger x), rows)
  decide_unless q (ok none) rows =
      decide_projected q (projection services.show services.codec q.proposal_id rows) rows
  decide_unless q (ok (some e)) rows = (replay q e rows, rows)

  -- `decide_memory_proposal`
  unfoldable pub decide_memory_proposal : DecisionCall → ProposalCall
  unfolding decide_unless
  decide_memory_proposal q rows =
      decide_unless q (get_by_idempotency services.codec q.idempotency_key rows) rows
