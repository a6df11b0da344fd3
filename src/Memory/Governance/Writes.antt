-- ===== src/Memory/Governance/Writes.antt =====
-- Every call of the repository keeps the invariant, and one that raises changes nothing.
use oscillink_agent.Base.{ℕ, String, inl, inr, refl, List, [], ◌∷◌, All-append, outcome-cases}
use oscillink_agent.Memory.Types.{MemoryRecord}
use oscillink_agent.Memory.Store.{Store}
use oscillink_agent.Memory.Write.{Native, native_record}
use oscillink_agent.Memory.Write.Keeps.{Keeps, Keeps-refl, Keeps-create_native}
use oscillink_agent.Memory.Review.{Decision, is_open, review, review_row}
use oscillink_agent.Memory.Review.Transitions.{Decided, review_changes, review-err}
use oscillink_agent.Memory.Sync.{SyncRequest, Note, note_record}
use oscillink_agent.Memory.Snapshot.{sync_obsidian}
use oscillink_agent.Memory.Snapshot.Effects.{sync_obsidian-cases, sync_obsidian-err}
use oscillink_agent.Memory.Governance.{
  IsOpen, IsDecision, Governed, Operation, create, decide, sync, perform, run,
}

pub native_record-IsOpen : (n : Native) (id : String) → IsOpen (native_record id n)
unfolding native_record is_open
native_record-IsOpen n id = refl

note_record-IsOpen : (source_key id : String) (n : Note) → IsOpen (note_record id source_key n)
unfolding note_record is_open
note_record-IsOpen source_key id n = refl

-- A synchronization leaves the reviews alone and stores open records.
pub sync_obsidian-Keeps :
    (draw : ℕ → ℕ) (q : SyncRequest) (s : Store) → Keeps IsOpen s (sync_obsidian draw q s).1
sync_obsidian-Keeps draw q s = elim (outcome-cases (sync_obsidian draw q s)) [
  | inl (r, h) ↦
      elim (sync_obsidian-cases IsOpen (λ x p. p) draw q
        (λ id n. note_record-IsOpen q.source_key id n) s (sync_obsidian draw q s).1 r h) [
          | inl replayed ↦ rw (replayed.unchanged) (Keeps-refl IsOpen s)
          | inr (unseen, done) ↦ done.keeps
        ]
  | inr (e, h) ↦
      rw (sync_obsidian-err draw q s (sync_obsidian draw q s).1 e h) (Keeps-refl IsOpen s)
]

Keeps-Governed : (s s' : Store) → Keeps IsOpen s s' → Governed s → Governed s'
Keeps-Governed s s' k g =
    let rows = k.rows (g.records, g.revisions) in
    record {
      records = rows.0;
      revisions = rows.1;
      reviews = rw k.reviews g.reviews;
      ids = k.ids g.ids;
    }

Decided-Governed :
    (s s' : Store) (d : Decision) (current : MemoryRecord)
    → Decided s d current s'
    → Governed s
    → Governed s'
Decided-Governed s s' d current h g = rw h.logged (record {
  records = g.records;
  revisions = g.revisions;
  reviews =
      All-append IsDecision s.reviews (review_row current d ∷ []) g.reviews
        (unfold review_row in h.supported, tt);
  ids = g.ids;
})

review-Governed : (s : Store) (d : Decision) → Governed s → Governed (review d s).1
review-Governed s d g = elim (outcome-cases (review d s)) [
  | inl (r, h) ↦ elim (review_changes s (review d s).1 d r h) [
    | inl same ↦ rw same g
    | inr (current, decided) ↦ Decided-Governed s (review d s).1 d current decided g
  ]
  | inr (e, h) ↦ rw (review-err s (review d s).1 d e h) g
]

pub perform-Governed : (op : Operation) (s : Store) → Governed s → Governed (perform op s)
unfolding perform
perform-Governed (create bytes n) s g =
    Keeps-Governed s _ (Keeps-create_native IsOpen bytes n s (native_record-IsOpen n)) g
perform-Governed (decide d) s g = review-Governed s d g
perform-Governed (sync draw q) s g = Keeps-Governed s _ (sync_obsidian-Keeps draw q s) g

-- From a store that meets the invariant (stored records and revisions are open, reviews decide,
-- identities are distinct) every sequence of creations, reviews and synchronizations, whether they
-- return or raise, leads to one that does.
pub run-Governed : (ops : List Operation) (s : Store) → Governed s → Governed (run ops s)
unfolding run
run-Governed [] s g = g
run-Governed (op ∷ ops) s g = run-Governed ops (perform op s) (perform-Governed op s g)
