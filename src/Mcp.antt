-- ===== src/Mcp.antt =====
-- The wire contracts of integrations/mcp/contracts.py, but those of recall. The parent of the tools
-- that integrations/mcp/server.py offers.
pub mod Explain
pub mod Propose
pub mod Server
pub mod Authority
pub mod Repeat
pub mod Staleness
use oscillink_agent.Base.{
  ℕ, String, Bool, true, false, ◌&&◌, ◌||◌, Option, none, some, List, [], ◌∷◌, length, leb, ◌==◌,
  nat_eq, string_eq, holds, is_unique,
}
use oscillink_agent.Domain.Identifiers.{
  codes, all_codes, is_term_code, is_event_id, is_memory_record_id, is_record_id, is_digest,
}
use oscillink_agent.Memory.Types.{AuthorityState, Category, Domain, domain_eq}
use oscillink_agent.Context.{Manifest, all_rows}
use oscillink_agent.Recall.{RecallRequest, RecalledMemory}

-- `ProjectMemoryTool`
pub data Tool : Type 0 where
  remember recall correct explain : Tool

pub data UnavailableReason : Type 0 where
  empty_workspace no_approved_memory memory_store_unavailable : UnavailableReason
  revision_not_found : UnavailableReason

pub data FailureCode : Type 0 where
  invalid_request request_conflict revision_conflict internal_error : FailureCode

pub data ExplanationReason : Type 0 where
  selected not_approved stale_revision superseded contradicted retracted : ExplanationReason
  missing_source no_query_match token_budget : ExplanationReason

pub data LineageRelationship : Type 0 where
  requested source supersedes superseded_by contradicts : LineageRelationship

-- `RememberRequest`
pub record RememberRequest : Type 0 where
  pub request_id : String
  pub title : String
  pub content : String
  pub category : Category
  pub domains : List Domain
  pub topics : List String
  pub source_refs : List String

-- What `CorrectRequest` adds to it.
pub record Target : Type 0 where
  pub record_id : String
  pub expected_content_hash : String
  pub reason : String

-- `ExplainRequest`
pub record ExplainRequest : Type 0 where
  pub request_id : String
  pub record_id : String
  pub content_hash : String

-- `MemoryLineageEntry`
pub record LineageEntry : Type 0 where
  pub record_id : String
  pub content_hash : String
  pub authority_state : AuthorityState
  pub relationship : LineageRelationship

-- `ExplainResponse`
pub record Explanation : Type 0 where
  pub request_id : String
  pub record_id : String
  pub content_hash : String
  pub authority_state : AuthorityState
  pub reason : ExplanationReason
  pub lineage : List LineageEntry

-- `ProjectMemoryToolResult`: UnavailableResponse, FailureResponse, RecallResponse, ExplainResponse,
-- CandidateResponse with its record and hash, and CorrectionResponse with its target besides.
pub data Response : Type 0 where
  unavailable : Tool → UnavailableReason → Response
  failure : Tool → FailureCode → Response
  recalled : Manifest → List RecalledMemory → Response
  explained : Explanation → Response
  candidate : String → String → String → Response
  correction : String → Target → String → String → Response

-- The constraints of `RecallRequest`.
unfoldable pub is_valid_recall : RecallRequest → Bool
is_valid_recall q =
    is_event_id q.request_id
    && leb 1 (length (codes q.query))
    && leb (length (codes q.query)) 16384
    && leb 1 q.token_budget
    && leb q.token_budget 32768

is_topic_tail : ℕ → Bool
is_topic_tail c = is_term_code c || c == b'.' || c == b'_' || c == b'-'

topic_codes : List ℕ → Bool
unfolding is_topic_tail
topic_codes [] = false
topic_codes (c ∷ cs) = is_term_code c && leb (length cs) 127 && all_codes is_topic_tail cs

-- `Topic`: `^[a-z0-9][a-z0-9._-]{0,127}$`
unfoldable pub is_topic : String → Bool
unfolding topic_codes
is_topic s = topic_codes (codes s)

-- The constraints and the validator of `RememberRequest`.
unfoldable pub is_valid_remember : RememberRequest → Bool
is_valid_remember q =
    is_event_id q.request_id
    && leb 1 (length (codes q.title))
    && leb (length (codes q.title)) 512
    && leb 1 (length (codes q.content))
    && leb (length (codes q.content)) 65536
    && leb 1 (length q.domains)
    && leb (length q.domains) 16
    && is_unique q.domains
    && leb (length q.topics) 32
    && all_rows is_topic q.topics
    && is_unique q.topics
    && leb 1 (length q.source_refs)
    && leb (length q.source_refs) 16
    && all_rows is_record_id q.source_refs
    && is_unique q.source_refs

-- What `CorrectRequest` requires besides.
unfoldable pub is_valid_target : List String → Target → Bool
is_valid_target source_refs t =
    is_memory_record_id t.record_id
    && is_digest t.expected_content_hash
    && leb 1 (length (codes t.reason))
    && leb (length (codes t.reason)) 4096
    && holds source_refs t.record_id

-- The constraints of `ExplainRequest`.
unfoldable pub is_valid_explain : ExplainRequest → Bool
is_valid_explain q =
    is_event_id q.request_id && is_memory_record_id q.record_id && is_digest q.content_hash
