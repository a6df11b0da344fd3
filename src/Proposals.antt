-- ===== src/Proposals.antt =====
-- Proposals to associate artifacts with memory, as the ledger shows them: proposals/repository.py
-- and proposals/contracts.py. The parent of the decisions on them.
pub mod Decisions
pub mod Payloads
pub mod Projections
pub mod Growth
pub mod Effects
pub mod Repeat
pub mod Pending
use oscillink_agent.Base.{
  ℕ, String, Bool, true, false, ◌&&◌, ◌||◌, Option, none, some, List, [], ◌∷◌, ◌==◌, string_eq,
  DecEq, Result, ok, err, select_one, select_latest, if◌then◌else◌,
}
use oscillink_agent.Domain.Identifiers.{codes, has_token}
use oscillink_agent.Domain.Json.{Json, text, get_field, field_is}
use oscillink_agent.Domain.Vocabulary.{EventType, event_type_eq}
use oscillink_agent.Domain.Events.{Event}
use oscillink_agent.Ledger.{Codec, Row, LedgerError, iter_all}

-- `state` of `MemoryProposalProjection`
pub data State : Type 0 where
  pending_review approved rejected : State

unfoldable pub state_discrete : Discrete State
state_discrete = hlevel

instance abbrev pub state_eq : DecEq State
state_eq = record { dec = state_discrete }

-- `MemoryProposalProjection`
pub record Projection : Type 0 where
  pub proposal_id : String
  pub state : State
  pub target_record_id : String
  pub artifact_ref : String
  pub source_name : String
  pub created_at : ℕ
  pub decision_event_id : Option String
  pub decided_at : Option ℕ
  pub decided_by : Option String

-- What the reads and the decisions raise: a KeyError, a ValidationError, an error of the ledger, the
-- responses 409 and 404 of an HTTPException, and a RuntimeError.
pub data ProposalError : Type 0 where
  key_error validation_error runtime_error : ProposalError
  ledger : LedgerError → ProposalError
  idempotency_conflict already_resolved not_found unreadable : ProposalError

-- `MemoryNodeId`: `^(?:doc|mem)_[0-9A-HJKMNP-TV-Z]{26}$`
unfoldable pub is_node_id : String → Bool
is_node_id s = has_token (codes "doc_") s || has_token (codes "mem_") s

unfoldable pub parse_state : String → Option State
parse_state s =
    if s == "pending_review"
    then some pending_review
    else if s == "approved"
    then some approved
    else if s == "rejected"
    then some rejected
    else none

-- The only element of a tuple of length one.
abbrev pub only : List String → Option String
only (x ∷ []) = some x
only _ = none

-- The artifact and the parent of a proposal that waits for its review, which has one of each.
abbrev pub both_of : Option String → Option String → Option (String × String)
both_of (some a) (some b) = some (a, b)
both_of _ _ = none

unfoldable pub awaiting : Event → Option (String × String)
awaiting e =
    if e.event_type == EventType.memory_proposal
      && field_is "operation" "artifact_association" e.payload
      && field_is "status" "pending_review" e.payload
    then both_of (only e.artifact_refs) (only e.causal_parent_ids)
    else none

-- `payload["target_record_id"]` and `payload["source_name"]`, as `model_validate` admits them
abbrev pub admitted : Json → Json → Result ProposalError (String × String)
admitted (text target) (text name) =
    if is_node_id target then ok (target, name) else err validation_error
admitted _ _ = err validation_error

abbrev pub required : Option Json → Option Json → Result ProposalError (String × String)
required (some target) (some name) = admitted target name
required _ _ = err key_error

-- `show` is Python's `str` of what is not a text: another JSON value, or None.
module _ (show : Option Json → String) where
  unfoldable pub text_of : Option Json → String
  text_of (some (text s)) = s
  text_of v = show v

  -- An event of the comprehension `decisions`, for one proposal.
  unfoldable pub decides : String → Event → Bool
  decides id e =
      field_is "operation" "artifact_association_review" e.payload
      && (e.event_type == EventType.approval || e.event_type == EventType.retraction)
      && text_of (get_field "proposal_id" e.payload) == id

  -- `decisions.get(id)`: a later event takes the place of an earlier one
  unfoldable pub find_decision : List Event → String → Option Event
  find_decision es id = select_latest (decides id) es

  -- The state, and `None` for one that `model_validate` refuses.
  abbrev pub state_of : Option Event → Option State
  state_of none = some pending_review
  state_of (some d) = parse_state (text_of (get_field "decision" d.payload))

  abbrev pub event_id_of : Option Event → Option String
  event_id_of none = none
  event_id_of (some d) = some d.id

  abbrev pub time_of : Option Event → Option ℕ
  time_of none = none
  time_of (some d) = some d.observed_at

  abbrev pub actor_of : Option Event → Option String
  actor_of none = none
  actor_of (some d) = some d.actor.id

  -- `MemoryProposalProjection.model_validate(…)`; the identities of a valid event are valid.
  unfoldable pub projected :
      Event
      → String
      → Option Event
      → Result ProposalError (String × String)
      → Option State
      → Result ProposalError (Option Projection)
  projected e artifact d (err x) state = err x
  projected e artifact d (ok s) none = err validation_error
  projected e artifact d (ok s) (some state) = ok (
      some (record {
        proposal_id = e.id;
        state = state;
        target_record_id = s.0;
        artifact_ref = artifact;
        source_name = s.1;
        created_at = e.observed_at;
        decision_event_id = event_id_of d;
        decided_at = time_of d;
        decided_by = actor_of d;
      }))

  unfoldable pub project_imported :
      Event → String → Option Event → Option Event → Result ProposalError (Option Projection)
  unfolding projected
  project_imported e artifact none d = ok none
  project_imported e artifact (some imported) d =
      if field_is "operation" "artifact_import" imported.payload
      then projected e artifact d
          (required (get_field "target_record_id" e.payload)
            (get_field "source_name" imported.payload))
          (state_of d)
      else ok none

  -- `events_by_id.get(id)`
  unfoldable pub find_event : List Event → String → Option Event
  find_event es id = select_latest (λ e. e.id == id) es

  unfoldable pub project_proposed :
      List Event → Event → Option (String × String) → Result ProposalError (Option Projection)
  unfolding project_imported find_decision find_event
  project_proposed es e none = ok none
  project_proposed es e (some p) =
      project_imported e p.0 (find_event es p.1) (find_decision es e.id)

  -- The loop body.
  unfoldable pub project_one : List Event → Event → Result ProposalError (Option Projection)
  unfolding awaiting project_proposed
  project_one es e = project_proposed es e (awaiting e)

  abbrev pub gather :
      Result ProposalError (Option Projection)
      → Result ProposalError (List Projection)
      → Result ProposalError (List Projection)
  gather (err x) rest = err x
  gather (ok o) (err x) = err x
  gather (ok none) (ok ps) = ok ps
  gather (ok (some p)) (ok ps) = ok (p ∷ ps)

  unfoldable pub project_each : List Event → List Event → Result ProposalError (List Projection)
  unfolding project_one
  project_each es [] = ok []
  project_each es (e ∷ rest) = gather (project_one es e) (project_each es rest)

  -- `project_memory_proposals`
  unfoldable pub project_memory_proposals : List Event → Result ProposalError (List Projection)
  unfolding project_each
  project_memory_proposals es = project_each es es

  -- `next(…)` of a collection
  abbrev pub named :
      String → Result ProposalError (List Projection) → Result ProposalError (Option Projection)
  named id (err x) = err x
  named id (ok ps) = ok (select_one (λ p. p.proposal_id == id) ps)

  abbrev pub project_read : Result LedgerError (List Event) → Result ProposalError (List Projection)
  project_read (err x) = err (ledger x)
  project_read (ok es) = project_memory_proposals es

  -- `_projection` of proposals/service.py
  unfoldable pub projection : Codec → String → List Row → Result ProposalError (Option Projection)
  projection codec id rows = named id (project_read (iter_all codec rows))
