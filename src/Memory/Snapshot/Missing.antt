-- ===== src/Memory/Snapshot/Missing.antt =====
-- What marking the missing records does: every binding whose note is gone ends with a record that is
-- marked, and each record marked is counted.
use oscillink_agent.Base.{
  ℕ, suc, ◌+◌, String, ◌≡◌, ◌≢◌, ◌∙◌, sym, ap, refl, true, none, some, List, [], ◌∷◌, arith, select,
  select_one, select_one-Occurs, exists_row, Occurs, Option-cases, Bool-cases, ◌⊎◌, inl, inr, ◌==◌,
  string_eq, option_eq, Bool, false, ok,
}
use oscillink_agent.Memory.Types.{MemoryRecord}
use oscillink_agent.Memory.Store.{Store, Binding, stored}
use oscillink_agent.Memory.Write.{upsert, write_record}
use oscillink_agent.Memory.Sync.{Note, SyncRequest, is_current}
use oscillink_agent.Memory.Sync.Rounds.{stored-upsert}
use oscillink_agent.Memory.Snapshot.{mark_missing, mark_all_missing, mark}

abbrev pub gone : MemoryRecord → MemoryRecord
gone r = record r { source_status = some "missing" }

-- The stored record of an identity, if there is one, is marked as missing.
abbrev pub IsMissing : Store → String → Type 0
IsMissing s id = (r : MemoryRecord) → stored s id ≡ some r → r.source_status ≡ some "missing"

-- No note has the path.
abbrev pub IsAbsent : List Note → String → Type 0
IsAbsent notes locator = (n : Note) → Occurs n notes → n.source_path ≢ locator

not_current :
    (notes : List Note) (locator : String)
    → IsAbsent notes locator
    → is_current notes locator ≡ false
unfolding is_current exists_row
not_current [] locator h = refl
not_current (n ∷ notes) locator h =
    let here = h n (inl refl) in ground (arith, not_current notes locator (λ m o. h m (inr o)))

select_one-upsert :
    (r q : MemoryRecord) (id : String) (rows : List MemoryRecord)
    → select_one (λ x. x.id == id) (upsert r rows) ≡ some q
    → (q ≡ r) ⊎ (select_one (λ x. x.id == id) rows ≡ some q)
unfolding upsert select_one
select_one-upsert r q id [] h = ground arith
select_one-upsert r q id (x ∷ rows) h = ground (arith, select_one-upsert r q id rows)

-- Marking a record keeps every mark.
write_record-IsMissing :
    (r : MemoryRecord) (s : Store) (id : String)
    → IsMissing s id
    → IsMissing (write_record (gone r) s) id
unfolding stored write_record
write_record-IsMissing r s id h q e = elim (select_one-upsert (gone r) q id s.records e) [
  | inl same ↦ rw same refl
  | inr old ↦ h q old
]

stored_id : (s : Store) (id : String) (r : MemoryRecord) → stored s id ≡ some r → r.id ≡ id
unfolding stored
stored_id s id r e = let o = select_one-Occurs (λ x. x.id == id) s.records r e in ground arith

stored-IsMissing :
    (r : MemoryRecord) (s : Store) (id : String)
    → stored s id ≡ some r
    → IsMissing (write_record (gone r) s) id
stored-IsMissing r s id e q h =
    let named : r.id ≡ id = stored_id s id r e in
    let found : stored (write_record (gone r) s) r.id ≡ some (gone r) =
      unfold stored write_record in stored-upsert (gone r) s.records in
    let same : some q ≡ some (gone r) =
      sym h ∙ sym (ap (stored (write_record (gone r) s)) named) ∙ found in
    let e' : q ≡ gone r = ground arith in rw e' refl

-- The marking of the records of some bindings: each is left, for its note is there or its record is
-- absent or marked already, or it is marked and counted.
abbrev pub Marks : List Note → List Binding → ℕ → Store → Store → Type 0
Marks notes [] k s s' = (k ≡ 0) × (s' ≡ s)
Marks notes (b ∷ bs) k s s' =
    (((is_current notes b.source_locator ≡ true) ⊎ IsMissing s b.record_id) × Marks notes bs k s s')
    ⊎ ((r : MemoryRecord) × (j : ℕ) × (is_current notes b.source_locator ≡ false)
        × (stored s b.record_id ≡ some r)
        × (r.source_status ≢ some "missing")
        × (k ≡ suc j)
        × Marks notes bs j (write_record (gone r) s) s')

module _ (notes : List Note) (b : Binding) (k : ℕ) (s : Store) where
  left_current : is_current notes b.source_locator ≡ true → mark_missing notes b (k, s) ≡ (k, s)
  unfolding mark_missing
  left_current e = ground arith

  left_unbound : stored s b.record_id ≡ none → mark_missing notes b (k, s) ≡ (k, s)
  unfolding mark_missing
  left_unbound e = ground arith

  found_step :
      (r : MemoryRecord)
      → is_current notes b.source_locator ≡ false
      → stored s b.record_id ≡ some r
      → ((r.source_status ≡ some "missing") × (mark_missing notes b (k, s) ≡ (k, s)))
        ⊎ ((r.source_status ≢ some "missing")
            × (mark_missing notes b (k, s) ≡ (k + 1, write_record (gone r) s)))
  unfolding mark_missing
  found_step r e f = ground arith

-- The marking has marked and counted these records.
record Marked (notes : List Note) (bs : List Binding) (k : ℕ) (s : Store) (x : ℕ × Store)
    : Type 0 where
  count : ℕ
  total : x.0 ≡ k + count
  marks : Marks notes bs count s x.1

left_one :
    (notes : List Note) (b : Binding) (bs : List Binding) (k : ℕ) (s : Store)
    → (is_current notes b.source_locator ≡ true) ⊎ IsMissing s b.record_id
    → mark_missing notes b (k, s) ≡ (k, s)
    → Marked notes bs k s (mark_all_missing notes bs (k, s))
    → Marked notes (b ∷ bs) k s (mark_all_missing notes (b ∷ bs) (k, s))
unfolding mark_all_missing
left_one notes b bs k s why e m =
    rw e (record { count = m.count; total = m.total; marks = inl (why, m.marks) })

mark_missing-Marked :
    (notes : List Note) (b : Binding) (bs : List Binding) (k : ℕ) (s : Store) (r : MemoryRecord)
    → is_current notes b.source_locator ≡ false
    → stored s b.record_id ≡ some r
    → r.source_status ≢ some "missing"
    → mark_missing notes b (k, s) ≡ (k + 1, write_record (gone r) s)
    → Marked notes bs
        (k + 1)
        (write_record (gone r) s)
        (mark_all_missing notes bs (k + 1, write_record (gone r) s))
    → Marked notes (b ∷ bs) k s (mark_all_missing notes (b ∷ bs) (k, s))
unfolding mark_all_missing
mark_missing-Marked notes b bs k s r absent found unmarked e m = rw e (record {
  count = suc m.count;
  total = omega (arith, m.total);
  marks = inr (r, m.count, absent, found, unmarked, refl, m.marks);
})

mark_all-Marked :
    (notes : List Note) (bs : List Binding) (k : ℕ) (s : Store)
    → Marked notes bs k s (mark_all_missing notes bs (k, s))
unfolding mark_all_missing
mark_all-Marked notes [] k s = record { count = 0; total = omega arith; marks = (refl, refl) }
mark_all-Marked notes (b ∷ bs) k s = elim (Bool-cases (is_current notes b.source_locator)) [
  | inl here ↦
      left_one notes b bs k s (inl here) (left_current notes b k s here)
        (mark_all-Marked notes bs k s)
  | inr absent ↦ elim (Option-cases (stored s b.record_id)) [
    | inl e ↦
        left_one notes b bs k s (inr (λ q h. absurd (ground (arith, e, h))))
          (left_unbound notes b k s e) (mark_all-Marked notes bs k s)
    | inr (r, e) ↦ elim (found_step notes b k s r absent e) [
      | inl (seen, same) ↦
          left_one notes b bs k s (inr (λ q h. ground (arith, e, h, seen))) same
            (mark_all-Marked notes bs k s)
      | inr (unseen, wrote) ↦
          mark_missing-Marked notes b bs k s r absent e unseen wrote
            (mark_all-Marked notes bs (k + 1) (write_record (gone r) s))
    ]
  ]
]

-- Marks are kept, and at the end every binding whose note is gone has one.
Marks-keeps :
    (notes : List Note) (bs : List Binding) (k : ℕ) (s s' : Store) (id : String)
    → Marks notes bs k s s'
    → IsMissing s id
    → IsMissing s' id
Marks-keeps notes [] k s s' id m h = rw m.1 h
Marks-keeps notes (b ∷ bs) k s s' id (inl (why, m)) h = Marks-keeps notes bs k s s' id m h
Marks-keeps notes (b ∷ bs) k s s' id (inr (r, j, absent, found, unmarked, e, m)) h =
    Marks-keeps notes bs j (write_record (gone r) s) s' id m (write_record-IsMissing r s id h)

Marks-IsMissing :
    (notes : List Note) (bs : List Binding) (k : ℕ) (s s' : Store) (b : Binding)
    → Marks notes bs k s s'
    → Occurs b bs
    → IsAbsent notes b.source_locator
    → IsMissing s' b.record_id
Marks-IsMissing notes [] k s s' b m o a = absurd o
Marks-IsMissing notes (c ∷ bs) k s s' b (inl (why, m)) (inr o) a =
    Marks-IsMissing notes bs k s s' b m o a
Marks-IsMissing notes (c ∷ bs) k s s' b (inl (inl here, m)) (inl e) a =
    absurd
      (let gone_now = not_current notes b.source_locator a in ground (arith, here, e, gone_now))
Marks-IsMissing notes (c ∷ bs) k s s' b (inl (inr marked, m)) (inl e) a =
    Marks-keeps notes bs k s s' b.record_id m (rw e marked)
Marks-IsMissing notes (c ∷ bs) k s s' b (inr (r, j, absent, found, unmarked, k', m)) (inl e) a =
    Marks-keeps notes bs j (write_record (gone r) s) s' b.record_id m
      (stored-IsMissing r s b.record_id (rw e found))
Marks-IsMissing notes (c ∷ bs) k s s' b (inr (r, j, absent, found, unmarked, e, m)) (inr o) a =
    Marks-IsMissing notes bs j (write_record (gone r) s) s' b m o a

mark_missing-bindings :
    (notes : List Note) (b : Binding) (k : ℕ) (s : Store)
    → (mark_missing notes b (k, s)).1.bindings ≡ s.bindings
unfolding mark_missing write_record
mark_missing-bindings notes b k s = ground arith

mark_all_missing-bindings :
    (notes : List Note) (bs : List Binding) (k : ℕ) (s : Store)
    → (mark_all_missing notes bs (k, s)).1.bindings ≡ s.bindings
unfolding mark_all_missing
mark_all_missing-bindings notes [] k s = refl
mark_all_missing-bindings notes (b ∷ bs) k s =
    let m = mark_missing notes b (k, s) in
    mark_all_missing-bindings notes bs m.0 m.1 ∙ mark_missing-bindings notes b k s

pub mark-bindings : (q : SyncRequest) (s : Store) → (mark q s).1.bindings ≡ s.bindings
unfolding mark
mark-bindings q s =
    mark_all_missing-bindings q.notes (select (λ b. b.source_key == q.source_key) s.bindings) 0 s

abbrev pub of_source : String → Binding → Bool
of_source source_key b = b.source_key == source_key

select-Occurs :
    (source_key : String) (b : Binding) (bs : List Binding)
    → Occurs b bs
    → b.source_key ≡ source_key
    → Occurs b (select (of_source source_key) bs)
unfolding select
select-Occurs source_key b [] o e = absurd o
select-Occurs source_key b (c ∷ bs) o e = elim (Bool-cases (of_source source_key c)) [
  | inl here ↦
      rw here
        (elim o [ inl same ↦ inl same | inr later ↦ inr (select-Occurs source_key b bs later e) ])
  | inr other ↦ rw other (elim o [
    | inl same ↦ absurd (ground (arith, same, e, other))
    | inr later ↦ select-Occurs source_key b bs later e
  ])
]

-- `mark` counts and marks the records of the source's bindings whose notes are gone.
pub mark-Marks :
    (q : SyncRequest) (s : Store) (k : ℕ)
    → mark q s ≡ (ok k, (mark q s).1)
    → Marks q.notes (select (of_source q.source_key) s.bindings) k s (mark q s).1
unfolding mark
mark-Marks q s k h =
    let m = mark_all-Marked q.notes (select (of_source q.source_key) s.bindings) 0 s in
    let e : k ≡ m.count = ground (arith, m.total) in rw e m.marks

pub mark-IsMissing :
    (q : SyncRequest) (s : Store) (b : Binding)
    → Occurs b s.bindings
    → b.source_key ≡ q.source_key
    → IsAbsent q.notes b.source_locator
    → IsMissing (mark q s).1 b.record_id
unfolding mark
mark-IsMissing q s b o e a =
    let bs = select (of_source q.source_key) s.bindings in
    let m = mark_all-Marked q.notes bs 0 s in
    Marks-IsMissing q.notes bs m.count s (mark_all_missing q.notes bs (0, s)).1 b m.marks
      (select-Occurs q.source_key b s.bindings o e) a
