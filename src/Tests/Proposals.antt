-- ===== src/Tests/Proposals.antt =====
-- The theorems about proposals, applied to one import and the proposal that it made.
use oscillink_agent.Base.{
  ℕ, ◌≡◌, ◌⊎◌, refl, sym, ◌∙◌, ap, String, Bool, true, false, Option, none, some, List, [], ◌∷◌,
  ◌++◌, ok, err, ◌==◌, string_eq, exists_row, if◌then◌else◌, All, arith,
}
use oscillink_agent.Domain.Json.{Json, Fields, no_fields, field, text}
use oscillink_agent.Domain.Vocabulary.{human, EventType, human_verified, private}
use oscillink_agent.Domain.Events.{Event, is_valid_event}
use oscillink_agent.Ledger.{
  Codec, Row, is_resolved, row_of, conflicts, get, get_by_idempotency, iter_all,
}
use oscillink_agent.Proposals.{Projection, pending_review, approved, projection, find_event}
use oscillink_agent.Proposals.Decisions.{
  DecisionCall, approve, Services, decision_event, decide_memory_proposal,
}
use oscillink_agent.Proposals.Effects.{Decided, decide-Decided}
use oscillink_agent.Proposals.Repeat.{decide-repeat}
use oscillink_agent.Proposals.Growth.{decide_one}
use oscillink_agent.Proposals.Pending.{pending-Decidable}
use oscillink_agent.Tests.{first_id, hash_a}

abbrev event_of : String → EventType → List String → Fields → Event
event_of id kind parents payload = record {
  id = id;
  session_id = "ses_00000000000000000000000001";
  run_id = "run_00000000000000000000000001";
  task_id = "tsk_00000000000000000000000001";
  actor = record { id = "human_owner"; kind = human };
  event_type = kind;
  observed_at = 5;
  recorded_at = 7;
  payload_hash = hash_a;
  artifact_refs = hash_a ∷ [];
  causal_parent_ids = parents;
  trust_class = human_verified;
  sensitivity = private;
  payload = payload;
  model_identity = none;
}

abbrev import_id : String
import_id = "evt_00000000000000000000000001"

abbrev proposal_id : String
proposal_id = "evt_00000000000000000000000002"

abbrev decision_id : String
decision_id = "evt_00000000000000000000000003"

abbrev imported : Event
imported =
    event_of import_id EventType.observation []
      (field "operation" (text "artifact_import") (field "source_name" (text "notes.md") no_fields))

abbrev proposal : Event
proposal = event_of proposal_id EventType.memory_proposal (import_id ∷ []) (
    field "operation" (text "artifact_association")
      (field "status" (text "pending_review") (field "target_record_id" (text first_id) no_fields)))

abbrev wish : DecisionCall
wish = record {
  proposal_id = proposal_id;
  request_id = decision_id;
  observed_at = 8;
  decision = approve;
  idempotency_key = "decide-1";
  actor_id = "human_owner";
  now = 9;
}

abbrev before : Projection
before = record {
  proposal_id = proposal_id;
  state = pending_review;
  target_record_id = first_id;
  artifact_ref = hash_a;
  source_name = "notes.md";
  created_at = 5;
  decision_event_id = none;
  decided_at = none;
  decided_by = none;
}

abbrev decision : Event
decision =
    record (event_of decision_id EventType.approval (proposal_id ∷ []) (
      field "operation" (text "artifact_association_review") (
        field "proposal_id" (text proposal_id) (
          field "decision" (text "approved")
            (field "target_record_id" (text first_id) no_fields))))) {
              observed_at = 8;
              recorded_at = 9;
            }

-- A codec of the three events, which writes an event as its identity.
abbrev codec : Codec
codec = record {
  encode = λ e. e.id;
  decode = λ s.
      if s == import_id
      then some imported
      else if s == proposal_id
      then some proposal
      else if s == decision_id
      then some decision
      else none;
  digest = λ s. s;
  review_subject = λ s. if s == decision_id then some proposal_id else none;
  verify = some (λ _. true);
}

abbrev services : Services
services = record {
  show = λ _. "None";
  codec = codec;
  payload_hash = λ _. hash_a;
  payload_bytes = λ _. 100;
}

abbrev rows : List Row
rows = row_of codec imported "import-1" ∷ row_of codec proposal "propose-1" ∷ []

abbrev decided_rows : List Row
decided_rows = rows ++ row_of codec (decision_event services wish before proposal) "decide-1" ∷ []

is_shown : projection services.show codec proposal_id rows ≡ ok (some before)
unfolding projection iter_all oscillink_agent.Ledger.check_rows oscillink_agent.Ledger.check_row
    oscillink_agent.Base.string_discrete row_of oscillink_agent.Proposals.project_memory_proposals
    oscillink_agent.Domain.Vocabulary.event_type_discrete oscillink_agent.Domain.Json.field_is
    oscillink_agent.Base.select_latest oscillink_agent.Proposals.is_node_id
    oscillink_agent.Domain.Identifiers.has_token oscillink_agent.Base.ℕ_discrete
    oscillink_agent.Proposals.decides oscillink_agent.Base.select_one
is_shown = refl

is_unused : get_by_idempotency codec "decide-1" rows ≡ ok none
unfolding get_by_idempotency oscillink_agent.Domain.Identifiers.is_idempotency_key
    oscillink_agent.Base.ℕ_discrete oscillink_agent.Ledger.check_found
    oscillink_agent.Base.select_one oscillink_agent.Base.string_discrete row_of
is_unused = refl

has_source : get codec proposal_id rows ≡ ok (some proposal)
unfolding get oscillink_agent.Ledger.check_found oscillink_agent.Base.select_one
    oscillink_agent.Base.string_discrete row_of oscillink_agent.Ledger.check_row
has_source = refl

is_read : iter_all codec rows ≡ ok (imported ∷ proposal ∷ [])
unfolding iter_all oscillink_agent.Ledger.check_rows oscillink_agent.Ledger.check_row
    oscillink_agent.Base.string_discrete row_of
is_read = refl

is_new : find_event services.show (imported ∷ proposal ∷ []) decision_id ≡ none
unfolding find_event oscillink_agent.Base.select_latest oscillink_agent.Base.string_discrete
is_new = refl

valid :
    is_valid_event services.payload_hash services.payload_bytes
      (decision_event services wish before proposal)
    ≡ true
unfolding is_valid_event oscillink_agent.Domain.Events.is_valid_model
    oscillink_agent.Domain.Identifiers.is_event_id decision_event oscillink_agent.Base.ℕ_discrete
    oscillink_agent.Domain.Identifiers.is_task_id oscillink_agent.Domain.Events.is_valid_actor
    oscillink_agent.Domain.Identifiers.is_actor_id oscillink_agent.Domain.Identifiers.has_prefix
    oscillink_agent.Domain.Events.type_prefix oscillink_agent.Domain.Identifiers.is_digest
    oscillink_agent.Domain.Json.is_bounded oscillink_agent.Base.is_unique
    oscillink_agent.Domain.Events.is_provenanced oscillink_agent.Base.string_discrete
    oscillink_agent.Domain.Events.needs_model oscillink_agent.Domain.Vocabulary.event_type_discrete
    oscillink_agent.Domain.Vocabulary.actor_type_discrete oscillink_agent.Base.holds
    oscillink_agent.Domain.Events.is_allowed_trust oscillink_agent.Domain.Identifiers.all_codes
    oscillink_agent.Domain.Identifiers.has_token oscillink_agent.Domain.Identifiers.is_crockford
    oscillink_agent.Domain.Identifiers.is_hex oscillink_agent.Domain.Identifiers.is_term_code
    oscillink_agent.Domain.Identifiers.strip_prefix oscillink_agent.Domain.Json.count_fields
    oscillink_agent.Domain.Json.count_items oscillink_agent.Domain.Vocabulary.trust_discrete
valid = refl

reads_back :
    codec.decode (codec.encode (decision_event services wish before proposal))
    ≡ some (decision_event services wish before proposal)
unfolding oscillink_agent.Base.string_discrete decision_event
reads_back = refl

resolves : All (λ a. is_resolved codec a ≡ true) proposal.artifact_refs
unfolding is_resolved
resolves = (refl, tt)

is_free :
    exists_row
      (conflicts codec (row_of codec (decision_event services wish before proposal) "decide-1"))
      rows
    ≡ false
unfolding exists_row conflicts oscillink_agent.Base.string_discrete row_of decision_event
is_free = refl

pending-Decidable_example :
    decide_memory_proposal services wish rows ≡ (ok (decide_one wish before), decided_rows)
pending-Decidable_example =
    pending-Decidable services wish before proposal rows is_shown refl is_unused has_source
      (imported ∷ proposal ∷ []) is_read is_new valid reads_back resolves is_free

wish_returns :
    decide_memory_proposal services wish rows ≡ (ok (decide_one wish before), decided_rows)
wish_returns =
    pending-Decidable services wish before proposal rows is_shown refl is_unused has_source
      (imported ∷ proposal ∷ []) is_read is_new valid reads_back resolves is_free

decide-Decided_example : Decided services wish (decide_one wish before) rows decided_rows
decide-Decided_example =
    decide-Decided services wish (decide_one wish before) rows decided_rows wish_returns

reads_decision :
    (p : Projection) (e : Event)
    → projection services.show codec proposal_id rows ≡ ok (some p)
    → get codec proposal_id rows ≡ ok (some e)
    → codec.decode (codec.encode (decision_event services wish p e))
      ≡ some (decision_event services wish p e)
reads_decision p e shows finds =
    let same_projection : ok (some before) ≡ ok (some p) = sym is_shown ∙ shows in
    let same_event : ok (some proposal) ≡ ok (some e) = sym has_source ∙ finds in
    let is_before : before ≡ p = ground arith in
    let is_proposal : proposal ≡ e = ground arith in rw (sym is_before, sym is_proposal) reads_back

decide-repeat_example :
    decide_memory_proposal services (record wish { now = 99 }) decided_rows
    ≡ (ok (decide_one wish before), decided_rows)
decide-repeat_example =
    decide-repeat services wish rows decided_rows (decide_one wish before) 99 reads_decision
      wish_returns
