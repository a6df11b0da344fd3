-- ===== src/Memory/Store.antt =====
-- The tables of `SQLiteMemoryRepository` (memory/repository.py) and its reads. A row's JSON column
-- is the record that it encodes. Tables are lists in `rowid` or `sequence` order.
pub mod Views
use oscillink_agent.Base.{
  ℕ, String, Bool, true, false, ◌&&◌, ◌||◌, Option, none, some, List, [], ◌∷◌, map, length, leb,
  ◌==◌, string_eq, select_one, select_latest, Result, Action, if◌then◌else◌,
}
use oscillink_agent.Domain.Identifiers.{
  codes, is_memory_record_id, is_digest, is_record_id, is_actor_id, is_event_id,
}
use oscillink_agent.Memory.Types.{
  AuthorityState, approved, rejected, superseded, MemoryRecord, Category, Domain,
}

-- A row of `memory_reviews`.
pub record Review : Type 0 where
  pub event_id : String
  pub idempotency_key : String
  pub record_id : String
  pub content_hash : String
  pub decision : AuthorityState
  pub replacement_record_id : Option String

-- A row of `memory_source_bindings`.
pub record Binding : Type 0 where
  pub source_key : String
  pub source_locator : String
  pub content_hash : String
  pub record_id : String

-- The counts of one synchronization.
pub record Counts : Type 0 where
  pub created : ℕ
  pub revised : ℕ
  pub unchanged : ℕ
  pub missing : ℕ
  pub issues : ℕ

-- A row of `memory_source_syncs`.
pub record SourceSync : Type 0 where
  pub event_id : String
  pub idempotency_key : String
  pub source_key : String
  pub snapshot_hash : String
  pub counts : Counts

pub record Store : Type 0 where
  pub records : List MemoryRecord
  pub reviews : List Review
  pub revisions : List MemoryRecord
  pub bindings : List Binding
  pub syncs : List SourceSync

abbrev pub empty : Store
empty = record { records = []; reviews = []; revisions = []; bindings = []; syncs = [] }

pub data MemoryError : Type 0 where
  record_not_found create_conflict review_conflict sync_conflict : String → MemoryError
  transition_conflict : String → MemoryError
  unsupported_decision invalid_key validation_error integrity_error : MemoryError
  assertion_error : MemoryError

abbrev pub Call : Type 0 → Type 0
Call A = Action Store MemoryError A

all_texts : (String → Bool) → List String → Bool
all_texts p [] = true
all_texts p (s ∷ ss) = p s && all_texts p ss

absent_or : (String → Bool) → Option String → Bool
absent_or p none = true
absent_or p (some s) = p s

abbrev sized : ℕ → ℕ → String → Bool
sized low high s = leb low (length (codes s)) && leb (length (codes s)) high

-- The field constraints of `ProductMemoryRecord`, which its constructor checks.
unfoldable pub is_valid : MemoryRecord → Bool
unfolding all_texts absent_or
is_valid r =
    is_memory_record_id r.id
    && sized 1 512 r.title
    && sized 1 2097152 r.content
    && is_digest r.content_hash
    && all_texts is_record_id r.source_refs
    && absent_or is_actor_id r.created_by
    && absent_or is_event_id r.creation_request_id
    && absent_or is_memory_record_id r.correction_target_id
    && absent_or is_digest r.correction_expected_hash

-- `WHERE record_id = ? AND content_hash = ?`
abbrev pub reviews_revision : String → String → Review → Bool
reviews_revision record_id content_hash v =
    v.record_id == record_id && v.content_hash == content_hash

-- `_with_review_state`
unfoldable pub with_review_state : Store → MemoryRecord → MemoryRecord
with_review_state s r = elim (select_latest (reviews_revision r.id r.content_hash) s.reviews) [
  | none ↦ r
  | some v ↦ record r { authority_state = v.decision }
]

-- `SELECT … FROM memory_records WHERE record_id = ?`
unfoldable pub stored : Store → String → Option MemoryRecord
stored s record_id = select_one (λ r. r.id == record_id) s.records

-- `get`
unfoldable pub get : Store → String → Option MemoryRecord
unfolding stored
get s record_id = elim (stored s record_id) [ none ↦ none | some r ↦ some (with_review_state s r) ]

-- `list`
unfoldable pub list : Store → List MemoryRecord
list s = map (with_review_state s) s.records

-- `get_revision`: the newest stored revision of that hash
unfoldable pub get_revision : Store → String → String → Option MemoryRecord
get_revision s record_id content_hash =
    elim (select_latest (λ r. r.id == record_id && r.content_hash == content_hash) s.revisions) [
      | none ↦ none
      | some r ↦ some (with_review_state s r)
    ]

-- `latest_review`
unfoldable pub latest_review : Store → String → String → Option Review
latest_review s record_id content_hash =
    select_latest (reviews_revision record_id content_hash) s.reviews
