-- ===== src/Memory/Types.antt =====
-- The records of memory/repository.py and its vocabulary.
use oscillink_agent.Base.{String, Option, List, DecEq, string_discrete}

pub data AuthorityState : Type 0 where
  curated candidate approved rejected superseded contradicted retracted : AuthorityState

pub data SourceKind : Type 0 where
  native obsidian : SourceKind

pub data Category : Type 0 where
  research tooling project experiment governance reference note : Category

pub data Domain : Type 0 where
  ai_ml rf_em science mathematics engineering software business general : Domain

pub data ArchitectureNode : Type 0 where
  identity_role goals_commitments projects_work knowledge_research : ArchitectureNode
  people_relationships decisions_lessons preferences_context : ArchitectureNode

unfoldable pub state_discrete : Discrete AuthorityState
state_discrete = hlevel

unfoldable pub kind_discrete : Discrete SourceKind
kind_discrete = hlevel

unfoldable pub category_discrete : Discrete Category
category_discrete = hlevel

unfoldable pub domain_discrete : Discrete Domain
domain_discrete = hlevel

unfoldable pub node_discrete : Discrete ArchitectureNode
node_discrete = hlevel

instance abbrev pub state_eq : DecEq AuthorityState
state_eq = record { dec = state_discrete }

instance abbrev pub kind_eq : DecEq SourceKind
kind_eq = record { dec = kind_discrete }

instance abbrev pub category_eq : DecEq Category
category_eq = record { dec = category_discrete }

instance abbrev pub domain_eq : DecEq Domain
domain_eq = record { dec = domain_discrete }

instance abbrev pub node_eq : DecEq ArchitectureNode
node_eq = record { dec = node_discrete }

-- `ProductMemoryRecord`; `schema_version` is the constant 1
pub record MemoryRecord : Type 0 where
  pub id : String
  pub title : String
  pub content : String
  pub authority_state : AuthorityState
  pub source_kind : SourceKind
  pub source_key : String
  pub source_path : Option String
  pub source_status : Option String
  pub category : Category
  pub domains : List Domain
  pub topics : List String
  pub content_hash : String
  pub wikilinks : List String
  pub classification_basis : List String
  pub architecture_node_ids : List ArchitectureNode
  pub source_refs : List String
  pub created_by : Option String
  pub creation_request_id : Option String
  pub correction_target_id : Option String
  pub correction_expected_hash : Option String
  pub correction_reason : Option String

unfoldable pub record_discrete : Discrete MemoryRecord
record_discrete = hlevel (
  string_discrete, state_discrete, kind_discrete, category_discrete, domain_discrete, node_discrete,
)

instance abbrev pub record_eq : DecEq MemoryRecord
record_eq = record { dec = record_discrete }
