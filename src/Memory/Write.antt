-- ===== src/Memory/Write.antt =====
-- The writes of memory/repository.py that take no decision: `_write_record_locked`,
-- `create_native` and `_insert_explicit_record`.
pub mod Tables
pub mod Keeps
pub mod Explicit
use oscillink_agent.Base.{
  ℕ, String, Bool, true, false, not, Option, none, some, List, [], ◌∷◌, ◌++◌, ◌==◌, exists_row,
  select_one, ok, err, pure, raise, raise_if, gets, modify, transaction, ◌>>=◌, ◌>>◌, string_eq,
  DecEq, if◌then◌else◌,
}
use oscillink_agent.Domain.Tokens.{new_record_id}
use oscillink_agent.Memory.Types.{
  AuthorityState, candidate, native, MemoryRecord, Category, Domain, ArchitectureNode, record_eq,
}
use oscillink_agent.Memory.Store.{
  Store, Call, create_conflict, validation_error, integrity_error, is_valid, stored,
}

-- `INSERT … ON CONFLICT(record_id) DO UPDATE`
unfoldable pub upsert : MemoryRecord → List MemoryRecord → List MemoryRecord
upsert r [] = r ∷ []
upsert r (x ∷ xs) = if x.id == r.id then r ∷ xs else x ∷ upsert r xs

-- `INSERT OR IGNORE INTO memory_record_revisions`, under UNIQUE (record_id, record_json)
unfoldable pub insert_revision : MemoryRecord → List MemoryRecord → List MemoryRecord
insert_revision r rs = if exists_row (λ x. x == r) rs then rs else rs ++ r ∷ []

-- `_write_record_locked`
unfoldable pub write_record : MemoryRecord → Store → Store
unfolding upsert insert_revision
write_record r s = record s {
  records = upsert r s.records;
  revisions = insert_revision r s.revisions;
}

-- The keyword arguments of `create_native`.
pub record Native : Type 0 where
  pub record_id : Option String
  pub title : String
  pub content : String
  pub category : Category
  pub domains : List Domain
  pub topics : List String
  pub content_hash : String
  pub architecture_node_ids : List ArchitectureNode
  pub source_refs : List String
  pub created_by : Option String
  pub creation_request_id : Option String
  pub correction_target_id : Option String
  pub correction_expected_hash : Option String
  pub correction_reason : Option String

-- The `ProductMemoryRecord` that `create_native` builds, under its identity.
unfoldable pub native_record : String → Native → MemoryRecord
native_record id n = record {
  id = id;
  title = n.title;
  content = n.content;
  authority_state = candidate;
  source_kind = native;
  source_key = "native";
  source_path = none;
  source_status = none;
  category = n.category;
  domains = n.domains;
  topics = n.topics;
  content_hash = n.content_hash;
  wikilinks = [];
  classification_basis = "customer:native" ∷ [];
  architecture_node_ids = n.architecture_node_ids;
  source_refs = n.source_refs;
  created_by = n.created_by;
  creation_request_id = n.creation_request_id;
  correction_target_id = n.correction_target_id;
  correction_expected_hash = n.correction_expected_hash;
  correction_reason = n.correction_reason;
}

-- What follows the look-up in `_insert_explicit_record`; the second INSERT is under
-- UNIQUE (record_id, record_json).
unfoldable pub insert_or_compare : MemoryRecord → Option MemoryRecord → Call MemoryRecord
insert_or_compare r none = do
  modify (λ s. record s { records = s.records ++ r ∷ [] })
  repeated ← gets (λ s. exists_row (λ x. x == r) s.revisions)
  raise_if repeated integrity_error
  modify (λ s. record s { revisions = s.revisions ++ r ∷ [] })
  pure r
insert_or_compare r (some existing) =
    if existing == r then pure existing else raise (create_conflict r.id)

-- `_insert_explicit_record`
unfoldable pub insert_explicit_record : MemoryRecord → Call MemoryRecord
unfolding insert_or_compare
insert_explicit_record r =
    transaction (do existing ← gets (λ s. stored s r.id); insert_or_compare r existing)

-- `create_native`, by the identity that it is given; `bytes` is what `secrets.token_bytes(17)`
-- returns, as a big-endian number
unfoldable pub create_as : ℕ → Native → Option String → Call MemoryRecord
create_as bytes n none = do
  let r = native_record (new_record_id bytes) n
  raise_if (not (is_valid r)) validation_error
  modify (write_record r)
  pure r
create_as bytes n (some id) = do
  let r = native_record id n
  raise_if (not (is_valid r)) validation_error
  insert_explicit_record r

unfoldable pub create_native : ℕ → Native → Call MemoryRecord
unfolding create_as
create_native bytes n = create_as bytes n n.record_id
