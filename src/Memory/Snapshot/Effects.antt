-- ===== src/Memory/Snapshot/Effects.antt =====
-- What a synchronization does: it replays one that is recorded, or it writes open records, counts
-- every note once and records itself.
use mathlib.Core.Path.{subst}
use oscillink_agent.Base.{
  ℕ, ◌+◌, String, ◌≡◌, ◌∙◌, refl, ap, Bool, true, none, some, List, [], ◌∷◌, ◌++◌, arith, ok, err,
  select_one, ◌==◌, string_eq, Option-cases, length, bind-ok, transaction-ok, transaction-err,
  All-at, select_one-Occurs, Occurs, select, ◌⊎◌, inl, inr, map, sym,
}
use oscillink_agent.Memory.Types.{MemoryRecord}
use oscillink_agent.Memory.Store.{Store, MemoryError, Binding, SourceSync, stored}
use oscillink_agent.Memory.Write.{write_record}
use oscillink_agent.Memory.Write.Tables.{upsert-HasDistinctIds}
use oscillink_agent.Memory.Write.Keeps.{Keeps, Keeps-refl, Keeps-trans, Keeps-write_record}
use oscillink_agent.Memory.Sync.{
  Note, SyncRequest, SyncResult, Progress, start, note_record, sync_notes,
}
use oscillink_agent.Memory.Sync.Rounds.{
  Outcome, Rounds, is_created, is_revised, is_unchanged, count_outcome, sync_notes-Traced,
}
use oscillink_agent.Memory.Snapshot.Missing.{
  gone, IsMissing, IsAbsent, Marks, of_source, mark-Marks, mark-IsMissing, mark-bindings,
}
use oscillink_agent.Memory.Sync.Notes.{Looped, sync_notes-Looped}
use oscillink_agent.Memory.Snapshot.{
  record_sync, sync_row, mark_missing, mark_all_missing, mark, is_same_sync, synchronize,
  replay_or_synchronize, sync_obsidian_locked, sync_obsidian,
}

module _ (P : MemoryRecord → Type 0) (stable : (r : MemoryRecord) → P r → P (gone r)) where
  -- A record that is stored may be rewritten as missing.
  Keeps-gone :
      (id : String) (r : MemoryRecord) (s : Store)
      → stored s id ≡ some r
      → Keeps P s (write_record (gone r) s)
  Keeps-gone id r s e =
      let o : Occurs r s.records × ((r.id == id) ≡ true) =
        unfold stored in select_one-Occurs (λ x. x.id == id) s.records r e in
      let kept = λ (p : P (gone r)). Keeps-write_record P (gone r) s p in
      record {
        reviews = unfold write_record in refl;
        rows = λ h. (kept (stable r (All-at P s.records r h.0 o.0))).rows h;
        ids = unfold write_record in upsert-HasDistinctIds (gone r) s.records;
      }

  mark_missing-cases :
      (notes : List Note) (b : Binding) (k : ℕ) (s : Store) (r : MemoryRecord)
      → stored s b.record_id ≡ some r
      → ((mark_missing notes b (k, s)).1 ≡ s)
        ⊎ ((mark_missing notes b (k, s)).1 ≡ write_record (gone r) s)
  unfolding mark_missing
  mark_missing-cases notes b k s r e = ground arith

  mark_missing-unbound :
      (notes : List Note) (b : Binding) (k : ℕ) (s : Store)
      → stored s b.record_id ≡ none
      → (mark_missing notes b (k, s)).1 ≡ s
  unfolding mark_missing
  mark_missing-unbound notes b k s e = ground arith

  mark_missing-Keeps :
      (notes : List Note) (b : Binding) (k : ℕ) (s : Store)
      → Keeps P s (mark_missing notes b (k, s)).1
  mark_missing-Keeps notes b k s = elim (Option-cases (stored s b.record_id)) [
    | inl e ↦ rw (mark_missing-unbound notes b k s e) (Keeps-refl P s)
    | inr (r, e) ↦ elim (mark_missing-cases notes b k s r e) [
      | inl same ↦ rw same (Keeps-refl P s)
      | inr wrote ↦ rw wrote (Keeps-gone b.record_id r s e)
    ]
  ]

  mark_all_missing-Keeps :
      (notes : List Note) (bs : List Binding) (k : ℕ) (s : Store)
      → Keeps P s (mark_all_missing notes bs (k, s)).1
  unfolding mark_all_missing
  mark_all_missing-Keeps notes [] k s = Keeps-refl P s
  mark_all_missing-Keeps notes (b ∷ bs) k s =
      let m = mark_missing notes b (k, s) in
      Keeps-trans P s m.1 (mark_all_missing notes bs m).1 (mark_missing-Keeps notes b k s)
        (mark_all_missing-Keeps notes bs m.0 m.1)

  mark-Keeps : (q : SyncRequest) (s : Store) → Keeps P s (mark q s).1
  unfolding mark
  mark-Keeps q s =
      mark_all_missing-Keeps q.notes (select (λ b. b.source_key == q.source_key) s.bindings) 0 s

mark_missing-syncs :
    (notes : List Note) (b : Binding) (k : ℕ) (s : Store)
    → (mark_missing notes b (k, s)).1.syncs ≡ s.syncs
unfolding mark_missing write_record
mark_missing-syncs notes b k s = ground arith

mark_all_missing-syncs :
    (notes : List Note) (bs : List Binding) (k : ℕ) (s : Store)
    → (mark_all_missing notes bs (k, s)).1.syncs ≡ s.syncs
unfolding mark_all_missing
mark_all_missing-syncs notes [] k s = refl
mark_all_missing-syncs notes (b ∷ bs) k s =
    let m = mark_missing notes b (k, s) in
    mark_all_missing-syncs notes bs m.0 m.1 ∙ mark_missing-syncs notes b k s

-- What is recorded behind the loop over the notes.
record Recorded (q : SyncRequest) (p : Progress) (s s' : Store) (r : SyncResult) : Type 0 where
  reviews : s'.reviews ≡ (mark q s).1.reviews
  records : s'.records ≡ (mark q s).1.records
  revisions : s'.revisions ≡ (mark q s).1.revisions
  logged : s'.syncs ≡ s.syncs ++ sync_row q r.counts ∷ []
  created : r.counts.created ≡ p.created
  revised : r.counts.revised ≡ p.revised
  unchanged : r.counts.unchanged ≡ p.unchanged
  issues : r.counts.issues ≡ q.issue_count
  returned : r.records ≡ p.synchronized
  marked : mark q s ≡ (ok r.counts.missing, (mark q s).1)
  left : s' ≡ record (mark q s).1 { syncs = s.syncs ++ sync_row q r.counts ∷ [] }

record_sync-Recorded :
    (q : SyncRequest) (p : Progress) (s s' : Store) (r : SyncResult)
    → record_sync q p s ≡ (ok r, s')
    → Recorded q p s s' r
unfolding record_sync mark
record_sync-Recorded q p s s' r h = ground (
  arith,
  mark_all_missing-syncs q.notes (select (λ b. b.source_key == q.source_key) s.bindings) 0 s,
)

record_sync-IsMissing :
    (q : SyncRequest) (p : Progress) (s s' : Store) (r : SyncResult)
    → Recorded q p s s' r
    → (b : Binding) → Occurs b s'.bindings
    → b.source_key ≡ q.source_key
    → IsAbsent q.notes b.source_locator
    → IsMissing s' b.record_id
unfolding stored
record_sync-IsMissing q p s s' r c b o e a =
    let bound : s'.bindings ≡ s.bindings = ap (λ t. t.bindings) c.left ∙ mark-bindings q s in
    let marked : IsMissing (mark q s).1 b.record_id =
      mark-IsMissing q s b (subst (λ bs. Occurs b bs) bound o) e a in
    λ x found. marked x (sym (ap (λ t. stored t b.record_id) c.left) ∙ found)

abbrev pub has_sync_key : SyncRequest → SourceSync → Bool
has_sync_key q v = v.idempotency_key == q.idempotency_key

-- A call that found its synchronization recorded.
pub record Replayed (q : SyncRequest) (s s' : Store) (r : SyncResult) : Type 0 where
  pub row : SourceSync
  pub seen : select_one (has_sync_key q) s.syncs ≡ some row
  pub same : is_same_sync row q ≡ true
  pub unchanged : s' ≡ s
  pub counts : r.counts ≡ row.counts

-- A synchronization that raises changes nothing.
pub sync_obsidian-err :
    (draw : ℕ → ℕ) (q : SyncRequest) (s s' : Store) (e : MemoryError)
    → sync_obsidian draw q s ≡ (err e, s')
    → s' ≡ s
unfolding sync_obsidian
sync_obsidian-err draw q s s' e h = transaction-err (sync_obsidian_locked draw q) s e h

module _ (draw : ℕ → ℕ) (q : SyncRequest) (s s' : Store) (r : SyncResult) where
  committed : sync_obsidian draw q s ≡ (ok r, s') → sync_obsidian_locked draw q s ≡ (ok r, s')
  unfolding sync_obsidian
  committed h = transaction-ok (sync_obsidian_locked draw q) s r h

  Replayed-sync :
      (v : SourceSync)
      → select_one (has_sync_key q) s.syncs ≡ some v
      → sync_obsidian_locked draw q s ≡ (ok r, s')
      → Replayed q s s' r
  unfolding sync_obsidian_locked replay_or_synchronize
  Replayed-sync v e h = record {
    row = v;
    seen = e;
    same = ground arith;
    unchanged = ground arith;
    counts = ground arith;
  }

  new_sync :
      select_one (has_sync_key q) s.syncs ≡ none
      → sync_obsidian_locked draw q s ≡ (ok r, s')
      → synchronize draw q s ≡ (ok r, s')
  unfolding sync_obsidian_locked replay_or_synchronize
  new_sync e h = ground arith

-- A synchronization proper that returned: the reviews are left alone, the records keep what the
-- notes' records have, the rounds of the notes are counted and returned in order, the records of the
-- bindings whose notes are gone are marked and counted, and a row is appended.
pub record Synchronized (P : MemoryRecord → Type 0) (q : SyncRequest) (s s' : Store)
    (r : SyncResult) : Type 0 where
  pub keeps : Keeps P s s'
  pub counted : r.counts.created + r.counts.revised + r.counts.unchanged ≡ length q.notes
  pub between : Store
  pub marked : Store
  pub outcomes : List (Outcome × MemoryRecord)
  pub rounds : Rounds q.source_key q.notes q.notes outcomes s between
  pub created : r.counts.created ≡ count_outcome is_created outcomes
  pub revised : r.counts.revised ≡ count_outcome is_revised outcomes
  pub unchanged : r.counts.unchanged ≡ count_outcome is_unchanged outcomes
  pub returned : r.records ≡ map (λ o. o.1) outcomes
  pub marks :
      Marks q.notes
        (select (of_source q.source_key) between.bindings)
        r.counts.missing
        between
        marked
  pub missing :
      (b : Binding)
      → Occurs b s'.bindings
      → b.source_key ≡ q.source_key
      → IsAbsent q.notes b.source_locator
      → IsMissing s' b.record_id
  pub issues : r.counts.issues ≡ q.issue_count
  pub left : s' ≡ record marked { syncs = s.syncs ++ sync_row q r.counts ∷ [] }
  pub logged : s'.syncs ≡ s.syncs ++ sync_row q r.counts ∷ []

module _ (P : MemoryRecord → Type 0) (stable : (r : MemoryRecord) → P r → P (gone r)) (draw : ℕ → ℕ)
    (q : SyncRequest) (holds : (id : String) (n : Note) → P (note_record id q.source_key n)) where
  Keeps-Recorded :
      (p : Progress) (s s₁ s' : Store) (r : SyncResult)
      → Looped P q.notes s s₁ start p
      → Recorded q p s₁ s' r
      → Keeps P s s'
  Keeps-Recorded p s s₁ s' r l c =
      let k = mark-Keeps P stable q s₁ in
      record {
        reviews = c.reviews ∙ k.reviews ∙ l.reviews;
        rows = λ h. rw (c.records, c.revisions) (k.rows (l.records h.0, l.revisions h.1));
        ids = λ h. rw c.records (k.ids (l.ids h));
      }

  pub synchronize-Synchronized :
      (s s' : Store) (r : SyncResult) → synchronize draw q s ≡ (ok r, s') → Synchronized P q s s' r
  unfolding synchronize
  synchronize-Synchronized s s' r h =
      let m = sync_notes draw q.source_key q.notes q.notes start in
      let (p, e, rest) = bind-ok m (record_sync q) s r s' h in
      let s₁ = (m s).1 in
      let l =
        sync_notes-Looped P draw q.source_key q.notes holds q.notes start p s s₁ (λ i. (e i, s₁)) in
      let c = record_sync-Recorded q p s₁ s' r rest in
      let t = sync_notes-Traced q.source_key q.notes draw q.notes start p s s₁ (λ i. (e i, s₁)) in
      record {
        keeps = Keeps-Recorded p s s₁ s' r l c;
        counted = omega (arith, l.counted, c.created, c.revised, c.unchanged);
        between = s₁;
        marked = (mark q s₁).1;
        outcomes = t.outcomes;
        rounds = t.rounds;
        created = omega (arith, c.created, t.created);
        revised = omega (arith, c.revised, t.revised);
        unchanged = omega (arith, c.unchanged, t.unchanged);
        returned = c.returned ∙ t.returned;
        marks = mark-Marks q s₁ r.counts.missing c.marked;
        missing = record_sync-IsMissing q p s₁ s' r c;
        issues = c.issues;
        left =
            c.left
            ∙ ap (λ x. record (mark q s₁).1 { syncs = x ++ sync_row q r.counts ∷ [] }) l.syncs;
        logged = c.logged ∙ ap (λ x. x ++ sync_row q r.counts ∷ []) l.syncs;
      }

  pub sync_obsidian-cases :
      (s s' : Store) (r : SyncResult)
      → sync_obsidian draw q s ≡ (ok r, s')
      → Replayed q s s' r ⊎ ((select_one (has_sync_key q) s.syncs ≡ none) × Synchronized P q s s' r)
  sync_obsidian-cases s s' r h =
      let locked = committed draw q s s' r h in
      elim (Option-cases (select_one (has_sync_key q) s.syncs)) [
        | inl e ↦ inr (e, synchronize-Synchronized s s' r (new_sync draw q s s' r e locked))
        | inr (v, e) ↦ inl (Replayed-sync draw q s s' r v e locked)
      ]
