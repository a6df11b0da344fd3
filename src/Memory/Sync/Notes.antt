-- ===== src/Memory/Sync/Notes.antt =====
-- What the loop over the notes does to the store and to its counts.
use mathlib.Core.Path.{subst₂}
use oscillink_agent.Base.{
  bind-ok, ℕ, ◌+◌, String, ◌≡◌, refl, Bool, true, false, Option, none, some, List, [], ◌∷◌, arith,
  ok, All, length, length-append, suc, ◌∙◌,
}
use oscillink_agent.Memory.Types.{MemoryRecord}
use oscillink_agent.Memory.Store.{Store}
use oscillink_agent.Memory.Write.{upsert, insert_revision}
use oscillink_agent.Domain.Tokens.{new_record_id}
use oscillink_agent.Memory.Write.Tables.{
  HasDistinctIds, upsert-HasDistinctIds, All-upsert, All-insert_revision,
}
use oscillink_agent.Memory.Sync.{
  Note, Progress, Identity, bound, renamed, fresh, identify, note_record, store_note,
  store_identified, sync_note, sync_notes,
}

abbrev pub total : Progress → ℕ
total p = p.created + p.revised + p.unchanged

-- A note's record was written, the reviews and the synchronizations were not touched, and the
-- note was counted once.
pub record Wrote (s s' : Store) (p p' : Progress) (r : MemoryRecord) : Type 0 where
  pub reviews : s'.reviews ≡ s.reviews
  pub syncs : s'.syncs ≡ s.syncs
  pub records : s'.records ≡ upsert r s.records
  pub revisions : s'.revisions ≡ insert_revision r s.revisions
  pub counted : total p' ≡ suc (total p)
  pub kept : length p'.synchronized ≡ suc (length p.synchronized)

pub store_note-Wrote :
    (is_new : Bool) (id : String) (previous : Option String) (source_key : String) (n : Note)
    (p p' : Progress) (s s' : Store)
    → store_note is_new id previous source_key n p s ≡ (ok p', s')
    → Wrote s s' p p' (note_record id source_key n)
unfolding store_note
store_note-Wrote is_new id previous source_key n p p' s s' h = grind (arith, length-append)

store_identified-Wrote :
    (draw : ℕ → ℕ) (source_key : String) (n : Note) (p p' : Progress) (i : Identity) (s s' : Store)
    → store_identified draw source_key n p i s ≡ (ok p', s')
    → (id : String) × Wrote s s' p p' (note_record id source_key n)
unfolding store_identified
store_identified-Wrote draw source_key n p p' (bound id) s s' h =
    (id, store_note-Wrote false id none source_key n p p' s s' h)
store_identified-Wrote draw source_key n p p' (renamed id locator) s s' h =
    (id, store_note-Wrote false id (some locator) source_key n p p' s s' h)
store_identified-Wrote draw source_key n p p' fresh s s' h =
    (new_record_id (draw p.drawn), store_note-Wrote true _ none source_key n p p' s s' h)

sync_note-Wrote :
    (draw : ℕ → ℕ) (source_key : String) (notes : List Note) (n : Note) (p p' : Progress)
    (s s' : Store)
    → sync_note draw source_key notes n p s ≡ (ok p', s')
    → (id : String) × Wrote s s' p p' (note_record id source_key n)
unfolding sync_note
sync_note-Wrote draw source_key notes n p p' s s' h =
    store_identified-Wrote draw source_key n p p' (identify source_key notes n s) s s' h

-- The loop over the notes keeps every property of the records that a note's record has, leaves the
-- reviews and the synchronizations alone, and counts and returns each note once.
pub record Looped (P : MemoryRecord → Type 0) (ns : List Note) (s s' : Store) (p p' : Progress)
    : Type 0 where
  pub reviews : s'.reviews ≡ s.reviews
  pub syncs : s'.syncs ≡ s.syncs
  pub records : All P s.records → All P s'.records
  pub revisions : All P s.revisions → All P s'.revisions
  pub ids : HasDistinctIds s.records → HasDistinctIds s'.records
  pub counted : total p' ≡ total p + length ns
  pub kept : length p'.synchronized ≡ length p.synchronized + length ns

module _ (P : MemoryRecord → Type 0) (draw : ℕ → ℕ) (source_key : String) (notes : List Note)
    (holds : (id : String) (n : Note) → P (note_record id source_key n)) where
  one_note-Looped :
      (n : Note) (ns : List Note) (s s₁ s' : Store) (p p₁ p' : Progress) (id : String)
      → Wrote s s₁ p p₁ (note_record id source_key n)
      → Looped P ns s₁ s' p₁ p'
      → Looped P (n ∷ ns) s s' p p'
  one_note-Looped n ns s s₁ s' p p₁ p' id w l =
      let r = note_record id source_key n in
      record {
        reviews = l.reviews ∙ w.reviews;
        syncs = l.syncs ∙ w.syncs;
        records = λ h. l.records (rw w.records (All-upsert P r (holds id n) s.records h));
        revisions =
            λ h. l.revisions (rw w.revisions (All-insert_revision P r (holds id n) s.revisions h));
        ids = λ h. l.ids (rw w.records (upsert-HasDistinctIds r s.records h));
        counted = omega (arith, l.counted, w.counted);
        kept = omega (arith, l.kept, w.kept);
      }

  no_notes-Looped : (s : Store) (p : Progress) → Looped P [] s s p p
  no_notes-Looped s p = record {
    reviews = refl;
    syncs = refl;
    records = λ h. h;
    revisions = λ h. h;
    ids = λ h. h;
    counted = omega arith;
    kept = omega arith;
  }

  pub sync_notes-Looped :
      (ns : List Note) (p p' : Progress) (s s' : Store)
      → sync_notes draw source_key notes ns p s ≡ (ok p', s')
      → Looped P ns s s' p p'
  unfolding sync_notes
  sync_notes-Looped [] p p' s s' h =
      let same_progress : p ≡ p' = ground arith in
      let same_store : s ≡ s' = ground arith in
      subst₂ (λ t q. Looped P [] s t p q) same_store same_progress (no_notes-Looped s p)
  sync_notes-Looped (n ∷ ns) p p' s s' h =
      let m = sync_note draw source_key notes n p in
      let (p₁, e, rest) = bind-ok m (sync_notes draw source_key notes ns) s p' s' h in
      let (id, w) = sync_note-Wrote draw source_key notes n p p₁ s (m s).1 (λ i. (e i, (m s).1)) in
      one_note-Looped n ns s (m s).1 s' p p₁ p' id w (sync_notes-Looped ns p₁ p' (m s).1 s' rest)
