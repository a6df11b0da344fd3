-- ===== src/Memory/Sync/Rounds.antt =====
-- The rounds of the loop over the notes, one by one: what each note came to, and what is returned.
use oscillink_agent.Base.{
  bind-ok, ℕ, ◌+◌, String, ◌≡◌, ◌≢◌, ◌∙◌, sym, ap, refl, Bool, true, false, Option, none, some,
  List, [], ◌∷◌, ◌++◌, append_assoc, append-nil, map, arith, ok, select_one, ◌⊎◌, inl, inr, ◌==◌,
  string_eq,
}
use oscillink_agent.Memory.Types.{MemoryRecord, record_eq}
use oscillink_agent.Memory.Store.{Store, get, stored, with_review_state}
use oscillink_agent.Memory.Write.{upsert}
use oscillink_agent.Domain.Tokens.{new_record_id}
use oscillink_agent.Memory.Sync.{
  Note, Progress, Identity, bound, renamed, fresh, identify, note_record, count_note, store_note,
  store_identified, sync_note, sync_notes,
}
use oscillink_agent.Memory.Sync.Notes.{store_note-Wrote}

pub data Outcome : Type 0 where
  created revised unchanged : Outcome

-- How many rounds came to an outcome.
abbrev pub count_outcome : (Outcome → ℕ) → List (Outcome × MemoryRecord) → ℕ
count_outcome f [] = 0
count_outcome f ((o, x) ∷ os) = f o + count_outcome f os

abbrev pub is_created : Outcome → ℕ
is_created created = 1
is_created _ = 0

abbrev pub is_revised : Outcome → ℕ
is_revised revised = 1
is_revised _ = 0

abbrev pub is_unchanged : Outcome → ℕ
is_unchanged unchanged = 1
is_unchanged _ = 0

-- A note creates a record where its path is not bound and no binding was renamed to it; it leaves
-- a record unchanged that was stored just so; and it revises any other.
abbrev pub Fits : Identity → Option MemoryRecord → MemoryRecord → Outcome → Type 0
Fits i before r created = i ≡ fresh
Fits i before r unchanged = (i ≢ fresh) × (before ≡ some r)
Fits i before r revised = (i ≢ fresh) × (before ≢ some r)

abbrev Tallied : Progress → Outcome → Progress → Type 0
Tallied p o p' =
    (p'.created ≡ p.created + is_created o)
    × (p'.revised ≡ p.revised + is_revised o)
    × (p'.unchanged ≡ p.unchanged + is_unchanged o)

tally_new :
    (before : Option MemoryRecord) (r : MemoryRecord) (p : Progress)
    → Tallied p created (count_note true before r p)
unfolding count_note
tally_new before r p = (omega arith, omega arith, omega arith)

tally_known :
    (before : Option MemoryRecord) (r : MemoryRecord) (p : Progress)
    → ((before ≡ some r) × Tallied p unchanged (count_note false before r p))
      ⊎ ((before ≢ some r) × Tallied p revised (count_note false before r p))
unfolding count_note
tally_known before r p = ground arith

pub stored-upsert :
    (r : MemoryRecord) (rows : List MemoryRecord)
    → select_one (λ x. x.id == r.id) (upsert r rows) ≡ some r
unfolding upsert select_one
stored-upsert r [] = ground arith
stored-upsert r (x ∷ rows) = ground (arith, stored-upsert r rows)

-- What a round did with the record of a note.
record Kept (s s' : Store) (p p' c : Progress) (id : String) (r : MemoryRecord) : Type 0 where
  created : p'.created ≡ c.created
  revised : p'.revised ≡ c.revised
  unchanged : p'.unchanged ≡ c.unchanged
  added : p'.synchronized ≡ p.synchronized ++ elim (get s' id) [ none ↦ r | some x ↦ x ] ∷ []

store_note-Kept :
    (is_new : Bool) (id : String) (previous : Option String) (source_key : String) (n : Note)
    (p p' : Progress) (s s' : Store)
    → store_note is_new id previous source_key n p s ≡ (ok p', s')
    → Kept s s' p p'
        (count_note is_new (stored s id) (note_record id source_key n) p)
        id
        (note_record id source_key n)
unfolding store_note count_note
store_note-Kept is_new id previous source_key n p p' s s' h = record {
  created = ground arith;
  revised = ground arith;
  unchanged = ground arith;
  added = ground arith;
}

-- The record that a note is given is the one that its identity names.
abbrev pub Names : Identity → String → Type 0
Names (bound b) id = id ≡ b
Names (renamed b locator) id = id ≡ b
Names fresh id = Unit

-- One round: the record of the note is written under the identity that the note is given, the
-- outcome fits, and the record returned is what then reads, with the note's path, title and text.
pub record Round (source_key : String) (notes : List Note) (n : Note) (o : Outcome)
    (x : MemoryRecord) (s s' : Store) : Type 0 where
  pub id : String
  pub named : Names (identify source_key notes n s) id
  pub fits : Fits (identify source_key notes n s) (stored s id) (note_record id source_key n) o
  pub written : s'.records ≡ upsert (note_record id source_key n) s.records
  pub shown : get s' id ≡ some x
  pub path : x.source_path ≡ some n.source_path
  pub title : x.title ≡ n.title
  pub content : x.content ≡ n.content

view_of :
    (s : Store) (r : MemoryRecord)
    → ((with_review_state s r).source_path ≡ r.source_path)
      × ((with_review_state s r).title ≡ r.title)
      × ((with_review_state s r).content ≡ r.content)
unfolding with_review_state
view_of s r = (ground arith, ground arith, ground arith)

get-upsert :
    (s s' : Store) (r : MemoryRecord)
    → s'.records ≡ upsert r s.records
    → get s' r.id ≡ some (with_review_state s' r)
unfolding get stored
get-upsert s s' r e =
    let found : select_one (λ x. x.id == r.id) s'.records ≡ some r =
      ap (select_one (λ x. x.id == r.id)) e ∙ stored-upsert r s.records in
    rw (get, stored, found) refl

module _ (source_key : String) (notes : List Note) where
  -- A round that ended with these loop variables.
  record Counted (n : Note) (s s' : Store) (p p' : Progress) : Type 0 where
    outcome : Outcome
    shown : MemoryRecord
    round : Round source_key notes n outcome shown s s'
    tally : Tallied p outcome p'
    added : p'.synchronized ≡ p.synchronized ++ shown ∷ []

  finished_round :
      (n : Note) (s s' : Store) (p p' c : Progress) (id : String) (o : Outcome)
      → Names (identify source_key notes n s) id
      → Fits (identify source_key notes n s) (stored s id) (note_record id source_key n) o
      → s'.records ≡ upsert (note_record id source_key n) s.records
      → Kept s s' p p' c id (note_record id source_key n)
      → Tallied p o c
      → Counted n s s' p p'
  unfolding note_record
  finished_round n s s' p p' c id o named fits written k t =
      let r = note_record id source_key n in
      let x = with_review_state s' r in
      let e : get s' id ≡ some x = get-upsert s s' r written in
      let v = view_of s' r in
      record {
        outcome = o;
        shown = x;
        round = record {
          id = id;
          named = named;
          fits = fits;
          written = written;
          shown = e;
          path = v.0;
          title = v.1;
          content = v.2;
        };
        tally = (k.created ∙ t.0, k.revised ∙ t.1, k.unchanged ∙ t.2);
        added = rw e at k.added;
      }

  known_round :
      (n : Note) (previous : Option String) (s s' : Store) (p p' : Progress) (id : String)
      → Names (identify source_key notes n s) id
      → identify source_key notes n s ≢ fresh
      → store_note false id previous source_key n p s ≡ (ok p', s')
      → Counted n s s' p p'
  known_round n previous s s' p p' id named known h =
      let r = note_record id source_key n in
      let w = store_note-Wrote false id previous source_key n p p' s s' h in
      let k = store_note-Kept false id previous source_key n p p' s s' h in
      elim (tally_known (stored s id) r p) [
        | inl (same, t) ↦
            finished_round n s s' p p' _ id unchanged named (known, same) w.records k t
        | inr (differs, t) ↦
            finished_round n s s' p p' _ id revised named (known, differs) w.records k t
      ]

  identified_round :
      (draw : ℕ → ℕ) (n : Note) (s s' : Store) (p p' : Progress) (i : Identity)
      → identify source_key notes n s ≡ i
      → store_identified draw source_key n p i s ≡ (ok p', s')
      → Counted n s s' p p'
  unfolding store_identified
  identified_round draw n s s' p p' (bound b) e h =
      known_round n none s s' p p' b (rw e refl) (λ f. ground (arith, e, f)) h
  identified_round draw n s s' p p' (renamed b locator) e h =
      known_round n (some locator) s s' p p' b (rw e refl) (λ f. ground (arith, e, f)) h
  identified_round draw n s s' p p' fresh e h =
      let id = new_record_id (draw p.drawn) in
      let r = note_record id source_key n in
      finished_round n s s' p p' _ id created (rw e tt) e
        (store_note-Wrote true id none source_key n p p' s s' h).records
        (store_note-Kept true id none source_key n p p' s s' h) (tally_new (stored s id) r p)

  -- The rounds of the notes, from a store to another.
  abbrev pub Rounds : List Note → List (Outcome × MemoryRecord) → Store → Store → Type 0
  Rounds [] [] s s' = s' ≡ s
  Rounds [] (o ∷ os) s s' = ⊥
  Rounds (n ∷ ns) [] s s' = ⊥
  Rounds (n ∷ ns) ((o, x) ∷ os) s s' =
      (mid : Store) × Round source_key notes n o x s mid × Rounds ns os mid s'

  -- The loop has gone through the notes in order, has counted what each came to and returned their
  -- records in order.
  pub record Traced (ns : List Note) (s s' : Store) (p p' : Progress) : Type 0 where
    pub outcomes : List (Outcome × MemoryRecord)
    pub rounds : Rounds ns outcomes s s'
    pub created : p'.created ≡ p.created + count_outcome is_created outcomes
    pub revised : p'.revised ≡ p.revised + count_outcome is_revised outcomes
    pub unchanged : p'.unchanged ≡ p.unchanged + count_outcome is_unchanged outcomes
    pub returned : p'.synchronized ≡ p.synchronized ++ map (λ o. o.1) outcomes

  one_more :
      (n : Note) (ns : List Note) (s mid s' : Store) (p p₁ p' : Progress)
      → Counted n s mid p p₁
      → Traced ns mid s' p₁ p'
      → Traced (n ∷ ns) s s' p p'
  one_more n ns s mid s' p p₁ p' c t = record {
    outcomes = (c.outcome, c.shown) ∷ t.outcomes;
    rounds = (mid, c.round, t.rounds);
    created = omega (arith, t.created, c.tally.0);
    revised = omega (arith, t.revised, c.tally.1);
    unchanged = omega (arith, t.unchanged, c.tally.2);
    returned =
        t.returned
        ∙ ap (λ l. l ++ map (λ o. o.1) t.outcomes) c.added
        ∙ append_assoc p.synchronized (c.shown ∷ []) (map (λ o. o.1) t.outcomes);
  }

  pub sync_notes-Traced :
      (draw : ℕ → ℕ) (ns : List Note) (p p' : Progress) (s s' : Store)
      → sync_notes draw source_key notes ns p s ≡ (ok p', s')
      → Traced ns s s' p p'
  unfolding sync_notes sync_note
  sync_notes-Traced draw [] p p' s s' h =
      let same_progress : p' ≡ p = ground arith in
      let same_store : s' ≡ s = ground arith in
      record {
        outcomes = [];
        rounds = same_store;
        created = rw same_progress (omega arith);
        revised = rw same_progress (omega arith);
        unchanged = rw same_progress (omega arith);
        returned = rw same_progress (sym (append-nil p.synchronized));
      }
  sync_notes-Traced draw (n ∷ ns) p p' s s' h =
      let m = sync_note draw source_key notes n p in
      let (p₁, e, rest) = bind-ok m (sync_notes draw source_key notes ns) s p' s' h in
      let i = identify source_key notes n s in
      let c = identified_round draw n s (m s).1 p p₁ i refl (λ j. (e j, (m s).1)) in
      one_more n ns s (m s).1 s' p p₁ p' c (sync_notes-Traced draw ns p₁ p' (m s).1 s' rest)
