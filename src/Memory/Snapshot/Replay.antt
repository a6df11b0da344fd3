-- ===== src/Memory/Snapshot/Replay.antt =====
-- A synchronization that is repeated under its idempotency key.
use oscillink_agent.Base.{
  ℕ, ◌≡◌, ◌∙◌, inl, inr, true, some, arith, ok, select, select_one, select_one-append, ◌==◌,
  string_eq,
}
use oscillink_agent.Domain.Identifiers.{is_idempotency_key}
use oscillink_agent.Memory.Store.{Store, SourceSync, Counts, list}
use oscillink_agent.Memory.Sync.{SyncRequest, SyncResult}
use oscillink_agent.Memory.Snapshot.{
  sync_row, is_same_sync, replay_or_synchronize, sync_obsidian_locked, sync_obsidian,
}
use oscillink_agent.Memory.Snapshot.Effects.{has_sync_key, sync_obsidian-cases}

-- The result of a replay: the records of the source as they now read, and the recorded counts.
unfoldable pub replay_result : SyncRequest → Store → Counts → SyncResult
replay_result q s c = record {
  records = select (λ r. r.source_key == q.source_key) (list s);
  counts = c;
}

is_same_sync-sync_row : (q : SyncRequest) (c : Counts) → is_same_sync (sync_row q c) q ≡ true
unfolding is_same_sync sync_row
is_same_sync-sync_row q c = ground arith

module _ (draw : ℕ → ℕ) (q : SyncRequest) where
  recorded-repeat :
      (s : Store) (v : SourceSync)
      → select_one (has_sync_key q) s.syncs ≡ some v
      → is_same_sync v q ≡ true
      → is_idempotency_key q.idempotency_key ≡ true
      → sync_obsidian draw q s ≡ (ok (replay_result q s v.counts), s)
  unfolding sync_obsidian sync_obsidian_locked replay_or_synchronize replay_result
  recorded-repeat s v e same keyed = ground (arith, e)

  keyed_call :
      (s s' : Store) (r : SyncResult)
      → sync_obsidian draw q s ≡ (ok r, s')
      → is_idempotency_key q.idempotency_key ≡ true
  unfolding sync_obsidian sync_obsidian_locked
  keyed_call s s' r h = ground arith

  -- A synchronization that returned, repeated, changes nothing and reports the same counts, with
  -- the records of its source as they then read.
  pub sync_obsidian-repeat :
      (s s' : Store) (r : SyncResult)
      → sync_obsidian draw q s ≡ (ok r, s')
      → sync_obsidian draw q s' ≡ (ok (replay_result q s' r.counts), s')
  unfolding sync_row
  sync_obsidian-repeat s s' r h =
      let keyed = keyed_call s s' r h in
      elim (sync_obsidian-cases (λ _. Unit) (λ _ _. tt) draw q (λ _ _. tt) s s' r h) [
        | inl replayed ↦
            rw (replayed.unchanged, replayed.counts)
              (recorded-repeat s replayed.row replayed.seen replayed.same keyed)
        | inr (unseen, done) ↦
            let row = sync_row q r.counts in
            recorded-repeat s' row
              (rw done.logged
                (select_one-append (has_sync_key q) s.syncs row unseen ∙ ground arith))
              (is_same_sync-sync_row q r.counts) keyed
      ]
