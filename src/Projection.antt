-- ===== src/Projection.antt =====
-- The projection of product-owned records for the inspector: memory/projection.py.
pub mod Filters
use oscillink_agent.Base.{
  ℕ, String, Bool, true, false, ◌&&◌, Option, none, some, List, [], ◌∷◌, map, select, length,
  exists_row, ◌==◌,
}
use oscillink_agent.Memory.Types.{
  AuthorityState, SourceKind, native, obsidian, Category, Domain, ArchitectureNode, MemoryRecord,
  category_eq, domain_eq,
}

-- `MemoryProjectionState`, `MemoryUnavailableReason`
pub data ProjectionState : Type 0 where
  ready degraded unavailable : ProjectionState

pub data UnavailableReason : Type 0 where
  vault_not_configured vault_not_found index_build_failed : UnavailableReason

-- `MemoryNodeSummary`
pub record NodeSummary : Type 0 where
  pub id : String
  pub title : String
  pub source_path : Option String
  pub source_status : Option String
  pub authority_state : AuthorityState
  pub source_kind : SourceKind
  pub category : Category
  pub domains : List Domain
  pub topics : List String
  pub content_hash : String
  pub wikilink_count : ℕ
  pub architecture_node_ids : List ArchitectureNode

-- `MemoryNodeDetail`, beside the summary that it extends
pub record NodeDetail : Type 0 where
  pub summary : NodeSummary
  pub frontmatter_type : String
  pub wikilinks : List String
  pub classification_basis : List String

-- `MemoryNodeFilters`
pub record NodeFilters : Type 0 where
  pub category : Option Category
  pub domain : Option Domain

-- `MemoryNodeCollection`
pub record NodeCollection : Type 0 where
  pub state : ProjectionState
  pub reason : Option UnavailableReason
  pub index_hash : Option String
  pub count : ℕ
  pub applied_filters : NodeFilters
  pub nodes : List NodeSummary

-- `_summarize_product`
abbrev pub summarize_product : MemoryRecord → NodeSummary
summarize_product r = record {
  id = r.id;
  title = r.title;
  source_path = r.source_path;
  source_status = r.source_status;
  authority_state = r.authority_state;
  source_kind = r.source_kind;
  category = r.category;
  domains = r.domains;
  topics = r.topics;
  content_hash = r.content_hash;
  wikilink_count = length r.wikilinks;
  architecture_node_ids = r.architecture_node_ids;
}

-- `category is None or record.category is category`
unfoldable pub is_of_category : Option Category → Category → Bool
is_of_category none given = true
is_of_category (some c) given = given == c

-- `domain is None or domain in record.domains`
unfoldable pub is_of_domain : Option Domain → List Domain → Bool
is_of_domain none given = true
is_of_domain (some d) given = exists_row (λ x. x == d) given

abbrev pub is_selected : Option Category → Option Domain → MemoryRecord → Bool
is_selected category domain r = is_of_category category r.category && is_of_domain domain r.domains

-- `project_product_nodes`; `hash` stands for `_product_index_hash`.
unfoldable pub project_product_nodes :
    (List MemoryRecord → String)
    → List MemoryRecord
    → Option Category
    → Option Domain
    → NodeCollection
unfolding is_of_category is_of_domain
project_product_nodes hash records category domain =
    let selected = select (is_selected category domain) records in
    record {
      state = ready;
      reason = none;
      index_hash = some (hash records);
      count = length selected;
      applied_filters = record { category = category; domain = domain };
      nodes = map summarize_product selected;
    }

-- `unavailable_nodes`
abbrev pub unavailable_nodes : UnavailableReason → Option Category → Option Domain → NodeCollection
unavailable_nodes reason category domain = record {
  state = unavailable;
  reason = some reason;
  index_hash = none;
  count = 0;
  applied_filters = record { category = category; domain = domain };
  nodes = [];
}

-- The frontmatter type of `project_product_node`
abbrev pub frontmatter_type_of : SourceKind → String
frontmatter_type_of native = "native"
frontmatter_type_of obsidian = "source"

-- `project_product_node`
abbrev pub project_product_node : MemoryRecord → NodeDetail
project_product_node r = record {
  summary = summarize_product r;
  frontmatter_type = frontmatter_type_of r.source_kind;
  wikilinks = r.wikilinks;
  classification_basis = r.classification_basis;
}
