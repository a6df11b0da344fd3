-- ===== src/Tests.antt =====
-- Concrete records, requests and ledgers, on which the theorems about the program are applied.
pub mod Memory
pub mod Retrieval
pub mod Context
pub mod Ledger
pub mod Tokens
pub mod Recall
pub mod Pipeline
pub mod Events
pub mod Capabilities
pub mod Mcp
pub mod Proposals
pub mod Artifacts
pub mod Migrations
pub mod Evaluation
pub mod Projection
use oscillink_agent.Base.{
  ℕ, String, Option, none, some, List, [], ◌∷◌, ◌≡◌, ◌≢◌, refl, ap, arith, true, false, ◌==◌,
  string_eq, string_discrete, ℕ_discrete,
}
use oscillink_agent.Context.Compiler.{CompileRequest}
use oscillink_agent.Context.Validity.{IsRequest}
use oscillink_agent.Memory.Types.{
  AuthorityState, candidate, approved, native, research, Domain, science, MemoryRecord,
}
use oscillink_agent.Memory.Write.{Native}
use oscillink_agent.Memory.Store.{Store}
use oscillink_agent.Memory.Review.{Decision}
use oscillink_agent.Memory.Sync.{Note, SyncRequest}

abbrev pub first_id : String
first_id = "mem_00000000000000000000000001"

abbrev pub second_id : String
second_id = "mem_00000000000000000000000002"

abbrev pub hash_a : String
hash_a = "sha256:aaaaaaaaaaaaaaaaaaaaaaaaaaaaaaaaaaaaaaaaaaaaaaaaaaaaaaaaaaaaaaaa"

abbrev pub hash_b : String
hash_b = "sha256:bbbbbbbbbbbbbbbbbbbbbbbbbbbbbbbbbbbbbbbbbbbbbbbbbbbbbbbbbbbbbbbb"

abbrev pub sample : String → AuthorityState → String → String → MemoryRecord
sample id state title content = record {
  id = id;
  title = title;
  content = content;
  authority_state = state;
  source_kind = native;
  source_key = "native";
  source_path = none;
  source_status = none;
  category = research;
  domains = science ∷ [];
  topics = [];
  content_hash = hash_a;
  wikilinks = [];
  classification_basis = [];
  architecture_node_ids = [];
  source_refs = [];
  created_by = none;
  creation_request_id = none;
  correction_target_id = none;
  correction_expected_hash = none;
  correction_reason = none;
}

abbrev pub proposed : MemoryRecord
proposed = sample first_id candidate "Solar" "solar cells"

abbrev pub one_candidate : Store
one_candidate = record {
  records = proposed ∷ [];
  reviews = [];
  revisions = proposed ∷ [];
  bindings = [];
  syncs = [];
}

abbrev pub approval : Decision
approval = record {
  record_id = first_id;
  decision = approved;
  event_id = "evt_00000000000000000000000001";
  idempotency_key = "approve-1";
  replacement_record_id = none;
}

abbrev pub note_of : String → String → Note
note_of path hash = record {
  source_path = path;
  title = "Note";
  content = "text of the note";
  source_status = none;
  category = research;
  domains = science ∷ [];
  topics = [];
  wikilinks = [];
  classification_basis = [];
  content_hash = hash;
}

abbrev pub vault : SyncRequest
vault = record {
  source_key = "vault";
  notes = note_of "a.md" hash_a ∷ note_of "b.md" hash_b ∷ [];
  event_id = "evt_00000000000000000000000002";
  idempotency_key = "sync-1";
  snapshot_hash = hash_a;
  issue_count = 0;
}

abbrev pub solar : Native
solar = record {
  record_id = some second_id;
  title = "Solar";
  content = "solar cells";
  category = research;
  domains = science ∷ [];
  topics = [];
  content_hash = hash_b;
  architecture_node_ids = [];
  source_refs = [];
  created_by = some "human_owner";
  creation_request_id = none;
  correction_target_id = none;
  correction_expected_hash = none;
  correction_reason = none;
}

-- A request whose budget is four tokens.
abbrev pub request : CompileRequest
request = record {
  context_id = "ctx_00000000000000000000000001";
  task_id = "tsk_00000000000000000000000001";
  compiled_at = 0;
  token_budget = 4;
  policy_hash = hash_a;
}

pub request-IsRequest : IsRequest request
unfolding oscillink_agent.Domain.Identifiers.is_context_id oscillink_agent.Base.ℕ_discrete
    oscillink_agent.Domain.Identifiers.is_task_id oscillink_agent.Domain.Identifiers.is_digest
request-IsRequest = record {
  context_named = refl;
  task_named = refl;
  positive = omega arith;
  bounded = omega arith;
  policy = refl;
}

ids_tested : (first_id == second_id) ≡ false
unfolding string_discrete
ids_tested = refl

pub ids_differ : first_id ≢ second_id
ids_differ h =
    let e : (first_id == first_id) ≡ (first_id == second_id) = ap (λ s. first_id == s) h in
    let t : (first_id == first_id) ≡ true = ground arith in absurd (ground (arith, ids_tested))
