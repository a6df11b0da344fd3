-- ===== src/Memory/Snapshot.antt =====
-- `_sync_obsidian_locked` and `sync_obsidian` of memory/repository.py, around the loop over notes.
pub mod Missing
pub mod Effects
pub mod Replay
use oscillink_agent.Base.{
  ℕ, zero, suc, ◌+◌, String, Bool, true, false, not, ◌&&◌, Option, none, some, List, [], ◌∷◌, ◌++◌,
  ◌==◌, exists_row, select, select_one, pure, raise, raise_if, gets, modify, transaction, ◌>>=◌,
  ◌>>◌, string_eq, option_eq, if◌then◌else◌,
}
use oscillink_agent.Domain.Identifiers.{is_idempotency_key}
use oscillink_agent.Memory.Types.{MemoryRecord}
use oscillink_agent.Memory.Store.{
  Store, Binding, Counts, SourceSync, Call, sync_conflict, invalid_key, stored, list,
}
use oscillink_agent.Memory.Write.{write_record}
use oscillink_agent.Memory.Sync.{
  Note, SyncRequest, SyncResult, Progress, start, is_current, sync_notes,
}

-- One round of the loop over `missing_bindings`, on the count and the store.
unfoldable pub mark_missing : List Note → Binding → ℕ × Store → ℕ × Store
mark_missing notes b (missing, s) =
    if is_current notes b.source_locator then (missing, s) else elim (stored s b.record_id) [
      | none ↦ (missing, s)
      | some r ↦
          if r.source_status == some "missing"
          then (missing, s)
          else (missing + 1, write_record (record r { source_status = some "missing" }) s)
    ]

unfoldable pub mark_all_missing : List Note → List Binding → ℕ × Store → ℕ × Store
mark_all_missing notes [] acc = acc
mark_all_missing notes (b ∷ bs) acc = mark_all_missing notes bs (mark_missing notes b acc)

unfoldable pub mark : SyncRequest → Call ℕ
mark q s =
    let bound = select (λ b. b.source_key == q.source_key) s.bindings in
    let (missing, s') = mark_all_missing q.notes bound (0, s) in pure missing s'

-- The row that a synchronization appends.
unfoldable pub sync_row : SyncRequest → Counts → SourceSync
sync_row q c = record {
  event_id = q.event_id;
  idempotency_key = q.idempotency_key;
  source_key = q.source_key;
  snapshot_hash = q.snapshot_hash;
  counts = c;
}

-- `existing[:3] == expected`
unfoldable pub is_same_sync : SourceSync → SyncRequest → Bool
is_same_sync v q =
    v.event_id == q.event_id && v.source_key == q.source_key && v.snapshot_hash == q.snapshot_hash

-- What follows the loop over the notes: the missing records are marked, and the row is inserted.
unfoldable pub record_sync : SyncRequest → Progress → Call SyncResult
record_sync q p = do
  missing ← mark q
  let counts : Counts = record {
    created = p.created;
    revised = p.revised;
    unchanged = p.unchanged;
    missing = missing;
    issues = q.issue_count;
  }
  modify (λ s. record s { syncs = s.syncs ++ sync_row q counts ∷ [] })
  pure (record { records = p.synchronized; counts = counts })

-- The synchronization proper, once its identities are known to be new.
unfoldable pub synchronize : (ℕ → ℕ) → SyncRequest → Call SyncResult
synchronize draw q = do p ← sync_notes draw q.source_key q.notes q.notes start; record_sync q p

-- What follows the look-up of the idempotency key.
unfoldable pub replay_or_synchronize : (ℕ → ℕ) → SyncRequest → Option SourceSync → Call SyncResult
replay_or_synchronize draw q (some v) =
    if is_same_sync v q
    then gets (λ s. record {
      records = select (λ r. r.source_key == q.source_key) (list s);
      counts = v.counts;
    })
    else raise (sync_conflict q.idempotency_key)
replay_or_synchronize draw q none = do
  owned ← gets (λ s. exists_row (λ v. v.event_id == q.event_id) s.syncs)
  raise_if owned (sync_conflict q.event_id)
  synchronize draw q

-- `_sync_obsidian_locked`
unfoldable pub sync_obsidian_locked : (ℕ → ℕ) → SyncRequest → Call SyncResult
sync_obsidian_locked draw q = do
  raise_if (not (is_idempotency_key q.idempotency_key)) invalid_key
  existing ← gets (λ s. select_one (λ v. v.idempotency_key == q.idempotency_key) s.syncs)
  replay_or_synchronize draw q existing

-- `sync_obsidian`
unfoldable pub sync_obsidian : (ℕ → ℕ) → SyncRequest → Call SyncResult
sync_obsidian draw q = transaction (sync_obsidian_locked draw q)
