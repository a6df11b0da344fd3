-- ===== src/Mcp/Propose.antt =====
-- The tools `remember` and `correct`: `execute_project_memory_tool` of integrations/mcp/server.py,
-- from the valid request on.
use oscillink_agent.Base.{
  ℕ, String, Bool, true, false, not, ◌&&◌, Option, none, some, [], ◌==◌, string_eq, option_eq,
  list_eq, Result, ok, err, if◌then◌else◌,
}
use oscillink_agent.Domain.Tokens.{token_id}
use oscillink_agent.Memory.Types.{MemoryRecord, category_eq, domain_eq}
use oscillink_agent.Memory.Store.{Store, MemoryError, create_conflict, Call, get}
use oscillink_agent.Memory.Write.{Native, create_native}
use oscillink_agent.Mcp.{
  Tool, request_conflict, revision_conflict, RememberRequest, Target, Response, failure, candidate,
  correction,
}

-- A write: its request, and for `correct` the target.
pub record Proposal : Type 0 where
  pub request : RememberRequest
  pub target : Option Target

-- What the tools take from outside: the numbers of `_derived_id`, "sha256:" with the digest of the
-- content, and the actor that the server is bound to.
pub record Proposer : Type 0 where
  pub digest : String → String → ℕ
  pub hash_content : String → String
  pub actor_id : String

unfoldable pub tool_of : Proposal → Tool
tool_of p = elim p.target [ none ↦ Tool.remember | some t ↦ Tool.correct ]

module _ (proposer : Proposer) where
  -- `_derived_id(request.request_id, "mem", purpose)`
  unfoldable pub proposed_id : Proposal → String
  proposed_id p = token_id "mem_" (
      proposer.digest p.request.request_id
        (elim p.target [ none ↦ "remember-candidate" | some t ↦ "correct-candidate" ]))

  -- The keyword arguments that the tools give to `create_native`.
  unfoldable pub native_of : Proposal → Native
  native_of p = record {
    record_id = some (proposed_id p);
    title = p.request.title;
    content = p.request.content;
    category = p.request.category;
    domains = p.request.domains;
    topics = p.request.topics;
    content_hash = proposer.hash_content p.request.content;
    architecture_node_ids = [];
    source_refs = p.request.source_refs;
    created_by = some proposer.actor_id;
    creation_request_id = some p.request.request_id;
    correction_target_id = elim p.target [ none ↦ none | some t ↦ some t.record_id ];
    correction_expected_hash = elim p.target [
      | none ↦ none
      | some t ↦ some t.expected_content_hash
    ];
    correction_reason = elim p.target [ none ↦ none | some t ↦ some t.reason ];
  }

  -- Whether no field of the existing record differs from the request.
  unfoldable pub answers : Native → MemoryRecord → Bool
  answers n r =
      r.title == n.title
      && r.content == n.content
      && r.category == n.category
      && r.domains == n.domains
      && r.topics == n.topics
      && r.content_hash == n.content_hash
      && r.source_refs == n.source_refs
      && r.created_by == n.created_by
      && r.creation_request_id == n.creation_request_id
      && r.correction_target_id == n.correction_target_id
      && r.correction_expected_hash == n.correction_expected_hash
      && r.correction_reason == n.correction_reason

  -- `target is None or target.content_hash != request.expected_content_hash`
  unfoldable pub is_conflicting : Option Target → Store → Bool
  is_conflicting none s = false
  is_conflicting (some t) s = elim (get s t.record_id) [
    | none ↦ true
    | some r ↦ not (r.content_hash == t.expected_content_hash)
  ]

  unfoldable pub response_of : Proposal → MemoryRecord → Response
  response_of p r = elim p.target [
    | none ↦ candidate p.request.request_id r.id r.content_hash
    | some t ↦ correction p.request.request_id t r.id r.content_hash
  ]

  -- `except MemoryCreateConflictError`, around the creation
  unfoldable pub answer_created :
      Proposal → Result MemoryError MemoryRecord × Store → Result MemoryError Response × Store
  answer_created p (ok r, s) = (ok (response_of p r), s)
  answer_created p (err (create_conflict id), s) = (ok (failure (tool_of p) request_conflict), s)
  answer_created p (err e, s) = (err e, s)

  -- What follows the look-up of the identity.
  unfoldable pub answer_or_create : Proposal → Option MemoryRecord → Call Response
  unfolding native_of answers response_of answer_created
  answer_or_create p (some r) s =
      if answers (native_of p) r
      then (ok (response_of p r), s)
      else (ok (failure (tool_of p) request_conflict), s)
  answer_or_create p none s = answer_created p (create_native 0 (native_of p) s)

  -- From `SQLiteMemoryRepository(…)` to its `close()`.
  unfoldable pub propose : Proposal → Call Response
  unfolding is_conflicting answer_or_create proposed_id
  propose p s =
      if is_conflicting p.target s
      then (ok (failure Tool.correct revision_conflict), s)
      else answer_or_create p (get s (proposed_id p)) s
