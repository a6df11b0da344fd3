-- ===== src/Memory/Sync.antt =====
-- `sync_obsidian` and `_sync_obsidian_locked` of memory/repository.py.
pub mod Notes
pub mod Rounds
use oscillink_agent.Base.{
  ℕ, zero, suc, ◌+◌, String, Bool, true, false, not, ◌&&◌, ◌||◌, Option, none, some, List, [], ◌∷◌,
  ◌++◌, map, ◌==◌, exists_row, select, select_one, pure, raise, raise_if, gets, modify, transaction,
  ◌>>=◌, ◌>>◌, string_eq, option_eq, if◌then◌else◌,
}
use oscillink_agent.Domain.Identifiers.{is_idempotency_key}
use oscillink_agent.Domain.Tokens.{new_record_id}
use oscillink_agent.Memory.Types.{curated, obsidian, MemoryRecord, Category, Domain, record_eq}
use oscillink_agent.Memory.Store.{
  Store, Binding, Counts, SourceSync, Call, sync_conflict, invalid_key, validation_error,
  integrity_error, is_valid, stored, get, list,
}
use oscillink_agent.Memory.Write.{write_record}

-- The fields of `IndexedObsidianNote` (memory/obsidian.py) that a synchronization reads.
pub record Note : Type 0 where
  pub source_path : String
  pub title : String
  pub content : String
  pub source_status : Option String
  pub category : Category
  pub domains : List Domain
  pub topics : List String
  pub wikilinks : List String
  pub classification_basis : List String
  pub content_hash : String

-- The arguments of `sync_obsidian`.
pub record SyncRequest : Type 0 where
  pub source_key : String
  pub notes : List Note
  pub event_id : String
  pub idempotency_key : String
  pub snapshot_hash : String
  pub issue_count : ℕ

-- `MemorySourceSyncResult`
pub record SyncResult : Type 0 where
  pub records : List MemoryRecord
  pub counts : Counts

-- The loop variables: `synchronized` and the counts, and how many identities were drawn.
pub record Progress : Type 0 where
  pub synchronized : List MemoryRecord
  pub created : ℕ
  pub revised : ℕ
  pub unchanged : ℕ
  pub drawn : ℕ

abbrev pub start : Progress
start = record { synchronized = []; created = 0; revised = 0; unchanged = 0; drawn = 0 }

unfoldable pub note_record : String → String → Note → MemoryRecord
note_record id source_key n = record {
  id = id;
  title = n.title;
  content = n.content;
  authority_state = curated;
  source_kind = obsidian;
  source_key = source_key;
  source_path = some n.source_path;
  source_status = n.source_status;
  category = n.category;
  domains = n.domains;
  topics = n.topics;
  content_hash = n.content_hash;
  wikilinks = n.wikilinks;
  classification_basis = n.classification_basis;
  architecture_node_ids = [];
  source_refs = [];
  created_by = none;
  creation_request_id = none;
  correction_target_id = none;
  correction_expected_hash = none;
  correction_reason = none;
}

-- `source_locator in current_locators`
unfoldable pub is_current : List Note → String → Bool
is_current notes locator = exists_row (λ n. n.source_path == locator) notes

-- `(source_key, source_locator)`, the primary key of the bindings
abbrev pub binds : String → String → Binding → Bool
binds source_key locator b = b.source_key == source_key && b.source_locator == locator

-- The identity that a note is given: a bound or renamed record, or a new one.
pub data Identity : Type 0 where
  bound : String → Identity
  renamed : String → String → Identity
  fresh : Identity

only_renamed : List Binding → Identity
only_renamed (b ∷ []) = renamed b.record_id b.source_locator
only_renamed _ = fresh

unfoldable pub identify : String → List Note → Note → Store → Identity
unfolding only_renamed is_current
identify source_key notes n s = elim (select_one (binds source_key n.source_path) s.bindings) [
  | some b ↦ bound b.record_id
  | none ↦ only_renamed (
      select
        (λ b.
          b.source_key == source_key
          && b.content_hash == n.content_hash
          && not (is_current notes b.source_locator))
        s.bindings)
]

-- `DELETE FROM memory_source_bindings` of one primary key
unfoldable pub unbind : String → String → List Binding → List Binding
unbind source_key locator bs = select (λ b. not (binds source_key locator b)) bs

unfoldable pub put_binding : Binding → List Binding → List Binding
put_binding b [] = b ∷ []
put_binding b (x ∷ xs) =
    if binds b.source_key b.source_locator x then b ∷ xs else x ∷ put_binding b xs

-- `INSERT … ON CONFLICT(source_key, source_locator) DO UPDATE`, under `record_id … UNIQUE`
unfoldable pub upsert_binding : Binding → Call (Unit {0})
unfolding put_binding
upsert_binding b = do
  taken ← gets (λ s.
      exists_row (λ x. x.record_id == b.record_id && not (binds b.source_key b.source_locator x))
        s.bindings)
  raise_if taken integrity_error
  modify (λ s. record s { bindings = put_binding b s.bindings })

-- `created += 1`, `unchanged += 1` or `revised += 1`
unfoldable pub count_note : Bool → Option MemoryRecord → MemoryRecord → Progress → Progress
count_note true stored_record r p = record p { created = p.created + 1; drawn = p.drawn + 1 }
count_note false stored_record r p =
    if stored_record == some r
    then record p { unchanged = p.unchanged + 1 }
    else record p { revised = p.revised + 1 }

-- The loop body from the construction of the record on.
unfoldable pub store_note : Bool → String → Option String → String → Note → Progress → Call Progress
unfolding count_note upsert_binding unbind note_record write_record
store_note is_new id previous source_key n p = do
  before ← gets (λ s. stored s id)
  let r = note_record id source_key n
  raise_if (not (is_valid r)) validation_error
  modify (write_record r)
  modify (λ s. elim previous [
    | none ↦ s
    | some locator ↦ record s { bindings = unbind source_key locator s.bindings }
  ])
  upsert_binding (record {
    source_key = source_key;
    source_locator = n.source_path;
    content_hash = n.content_hash;
    record_id = id;
  })
  reread ← gets (λ s. get s id)
  let p' = count_note is_new before r p
  pure (record p' { synchronized = p.synchronized ++ elim reread [ none ↦ r | some x ↦ x ] ∷ [] })

-- The loop body, for the identity that the note is given; `draw` gives what
-- `secrets.token_bytes(17)` returns, call by call.
unfoldable pub store_identified : (ℕ → ℕ) → String → Note → Progress → Identity → Call Progress
store_identified draw source_key n p (bound id) = store_note false id none source_key n p
store_identified draw source_key n p (renamed id locator) =
    store_note false id (some locator) source_key n p
store_identified draw source_key n p fresh =
    store_note true (new_record_id (draw p.drawn)) none source_key n p

unfoldable pub sync_note : (ℕ → ℕ) → String → List Note → Note → Progress → Call Progress
sync_note draw source_key notes n p = do
  identity ← gets (identify source_key notes n)
  store_identified draw source_key n p identity

-- `for note in notes`
unfoldable pub sync_notes : (ℕ → ℕ) → String → List Note → List Note → Progress → Call Progress
sync_notes draw source_key notes [] p = pure p
sync_notes draw source_key notes (n ∷ ns) p = do
  p' ← sync_note draw source_key notes n p
  sync_notes draw source_key notes ns p'
