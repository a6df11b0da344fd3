-- ===== src/Tests/Mcp.antt =====
-- The theorems about the MCP server, applied.
use oscillink_agent.Base.{
  ℕ, ◌≡◌, ◌↔◌, refl, String, Bool, true, false, Option, none, some, List, [], ◌∷◌, ok, ◌==◌,
  string_eq, exists_row, select_latest, if◌then◌else◌,
}
use oscillink_agent.Memory.Types.{
  record_eq, candidate, approved, research, Domain, science, MemoryRecord,
}
use oscillink_agent.Memory.Store.{Store, Review, stored, reviews_revision, get, with_review_state}
use oscillink_agent.Memory.Write.{write_record, native_record}
use oscillink_agent.Retrieval.{is_eligible}
use oscillink_agent.Recall.{Runtime}
use oscillink_agent.Mcp.{
  ExplanationReason, RememberRequest, Target, Explanation, explained, correction,
}
use oscillink_agent.Mcp.Explain.{explain_revision}
use oscillink_agent.Mcp.Propose.{Proposal, Proposer, propose, proposed_id}
use oscillink_agent.Mcp.Server.{Decoder, opened, run_calls}
use oscillink_agent.Mcp.Authority.{IsAnchored, Harmless, run_calls-Harmless}
use oscillink_agent.Mcp.Repeat.{reviewed, propose-repeat}
use oscillink_agent.Mcp.Staleness.{is_revision, request_of, explain-Eligible, restored-missing}
use oscillink_agent.Tests.{first_id, hash_a, hash_b, proposed, one_candidate}

abbrev runtime : Runtime
runtime = record {
  casefold = λ s. s;
  digest = λ id purpose. 640;
  from_timestamp = λ ms. some ms;
  policy_hash = hash_a;
}

abbrev proposer : Proposer
proposer = record {
  digest = λ id purpose. 640;
  hash_content = λ s. hash_b;
  actor_id = "model_mcp_client";
}

abbrev text_request : RememberRequest
text_request = record {
  request_id = "evt_00000000010000000000000001";
  title = "Wind";
  content = "wind power";
  category = research;
  domains = science ∷ [];
  topics = [];
  source_refs = first_id ∷ [];
}

abbrev target : Target
target = record { record_id = first_id; expected_content_hash = hash_a; reason = "newer" }

-- A decoder that knows one request.
abbrev decoder : Decoder String
decoder = record {
  recall_fields = λ a. none;
  explain_fields = λ a. none;
  remember_fields = λ a. some text_request;
  correct_fields = λ a. some (text_request, target);
}

abbrev decision : Review
decision = record {
  event_id = "evt_00000000000000000000000001";
  idempotency_key = "approve-1";
  record_id = first_id;
  content_hash = hash_a;
  decision = approved;
  replacement_record_id = none;
}

abbrev approved_store : Store
approved_store = record one_candidate { reviews = decision ∷ [] }

approved_store-IsAnchored : IsAnchored approved_store
unfolding exists_row oscillink_agent.Base.string_discrete
approved_store-IsAnchored = (refl, tt)

abbrev calls : List (String × String)
calls = ("remember", "") ∷ ("explain", "") ∷ ("correct", "") ∷ ("forget", "") ∷ []

run_calls-Harmless_example :
    Harmless approved_store
      (opened (run_calls decoder runtime proposer true calls (some approved_store)))
run_calls-Harmless_example =
    run_calls-Harmless decoder runtime proposer true calls (some approved_store)
      approved_store-IsAnchored

-- A correction of the approved record.
abbrev wish : Proposal
wish = record { request = text_request; target = some target }

abbrev after_wish : Store
after_wish = (propose proposer wish approved_store).1

wish_returns : propose proposer wish approved_store ≡ (
  ok (correction "evt_00000000010000000000000001" target (proposed_id proposer wish) hash_b),
  after_wish,
)
unfolding propose get oscillink_agent.Base.select_one oscillink_agent.Base.string_discrete
    with_review_state select_latest oscillink_agent.Domain.Tokens.token_id
    oscillink_agent.Domain.Tokens.symbol oscillink_agent.Memory.Write.create_native
    oscillink_agent.Memory.Store.is_valid oscillink_agent.Domain.Identifiers.is_memory_record_id
    native_record oscillink_agent.Base.ℕ_discrete oscillink_agent.Domain.Identifiers.is_digest
    oscillink_agent.Domain.Identifiers.is_record_id oscillink_agent.Domain.Identifiers.is_actor_id
    oscillink_agent.Domain.Identifiers.is_event_id
    oscillink_agent.Memory.Write.insert_explicit_record exists_row
    oscillink_agent.Memory.Types.record_discrete
wish_returns = refl

propose-repeat_example : propose proposer wish (reviewed [] after_wish) ≡ (
  ok (correction "evt_00000000010000000000000001" target (proposed_id proposer wish) hash_b),
  reviewed [] after_wish,
)
propose-repeat_example =
    propose-repeat proposer wish approved_store after_wish
      (correction "evt_00000000010000000000000001" target (proposed_id proposer wish) hash_b) []
      wish_returns

proposed_found : stored approved_store first_id ≡ some proposed
unfolding stored oscillink_agent.Base.select_one oscillink_agent.Base.string_discrete
proposed_found = refl

proposed_newest :
    select_latest (is_revision first_id hash_a) approved_store.revisions ≡ some proposed
unfolding select_latest oscillink_agent.Base.string_discrete
proposed_newest = refl

explain-Eligible_example :
    (x : Explanation) × (explain_revision approved_store
        (request_of "evt_00000000010000000000000001" proposed)
      ≡ explained x)
    × ((x.reason ≡ ExplanationReason.selected)
        ↔ (is_eligible (with_review_state approved_store proposed) ≡ true))
explain-Eligible_example =
    explain-Eligible approved_store "evt_00000000010000000000000001" proposed proposed_found
      proposed_newest

-- The record was marked as missing, which is its newest revision.
abbrev gone : MemoryRecord
gone = record proposed { source_status = some "missing" }

abbrev marked : Store
marked = record approved_store { records = gone ∷ []; revisions = proposed ∷ gone ∷ [] }

known_row : exists_row (λ x. x == proposed) marked.revisions ≡ true
unfolding exists_row oscillink_agent.Memory.Types.record_discrete
    oscillink_agent.Base.string_discrete oscillink_agent.Memory.Types.state_discrete
    oscillink_agent.Memory.Types.kind_discrete oscillink_agent.Memory.Types.category_discrete
    oscillink_agent.Memory.Types.domain_discrete
known_row = refl

gone_newest : select_latest (is_revision first_id hash_a) marked.revisions ≡ some gone
unfolding select_latest oscillink_agent.Base.string_discrete
gone_newest = refl

approved_latest : select_latest (reviews_revision first_id hash_a) marked.reviews ≡ some decision
unfolding select_latest oscillink_agent.Base.string_discrete
approved_latest = refl

restored-missing_example :
    (get (write_record proposed marked) first_id
      ≡ some (with_review_state (write_record proposed marked) proposed))
    × (is_eligible (with_review_state (write_record proposed marked) proposed) ≡ true)
    × (x : Explanation) × (explain_revision
          (write_record proposed marked)
          (request_of "evt_00000000010000000000000001" proposed)
        ≡ explained x)
    × (x.reason ≡ ExplanationReason.missing_source)
restored-missing_example =
    restored-missing marked "evt_00000000010000000000000001" proposed gone decision known_row
      gone_newest refl refl approved_latest refl
