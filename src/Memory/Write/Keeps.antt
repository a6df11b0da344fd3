-- ===== src/Memory/Write/Keeps.antt =====
-- Calls that leave the log of reviews alone and keep a property of every stored record.
use oscillink_agent.Base.{
  String, ◌≡◌, ◌⊎◌, inl, inr, ◌∙◌, refl, false, Option, none, some, List, [], ◌∷◌, ◌++◌, arith, All,
  All-append, select_one, ◌==◌, string_eq, exists_row, ℕ,
}
use oscillink_agent.Domain.Tokens.{new_record_id}
use oscillink_agent.Memory.Types.{MemoryRecord}
use oscillink_agent.Memory.Store.{Store, stored}
use oscillink_agent.Memory.Write.{
  Native, write_record, native_record, insert_or_compare, insert_explicit_record, create_as,
  create_native,
}
use oscillink_agent.Memory.Write.Tables.{
  HasDistinctIds, has_id, upsert-HasDistinctIds, append-HasDistinctIds, All-upsert,
  All-insert_revision,
}

-- A property of every stored record and of every revision.
abbrev pub AllRows : (MemoryRecord → Type 0) → Store → Type 0
AllRows P s = All P s.records × All P s.revisions

pub record Keeps (P : MemoryRecord → Type 0) (s s' : Store) : Type 0 where
  pub reviews : s'.reviews ≡ s.reviews
  pub rows : AllRows P s → AllRows P s'
  pub ids : HasDistinctIds s.records → HasDistinctIds s'.records

-- The primary key: a record that is not found has an identity of its own.
pub has_id-stored :
    (id : String) (rs : List MemoryRecord)
    → select_one (λ r. r.id == id) rs ≡ none
    → has_id id rs ≡ false
unfolding select_one exists_row
has_id-stored id [] h = refl
has_id-stored id (r ∷ rs) h = ground (arith, has_id-stored id rs)

-- The store with one more record, and its first revision.
unfoldable pub added : MemoryRecord → Store → Store
added r s = record s { records = s.records ++ r ∷ []; revisions = s.revisions ++ r ∷ [] }

-- The store after `_insert_explicit_record`: as before, or with the record added.
pub insert_explicit-cases :
    (r : MemoryRecord) (s : Store)
    → ((insert_explicit_record r s).1 ≡ s)
      ⊎ ((stored s r.id ≡ none) × ((insert_explicit_record r s).1 ≡ added r s))
unfolding insert_explicit_record insert_or_compare added
insert_explicit-cases r s = ground arith

pub explicit_id-cases :
    (bytes : ℕ) (n : Native) (s : Store) (id : String)
    → ((create_as bytes n (some id) s).1 ≡ s)
      ⊎ ((create_as bytes n (some id) s).1 ≡ (insert_explicit_record (native_record id n) s).1)
unfolding create_as
explicit_id-cases bytes n s id = ground arith

module _ (P : MemoryRecord → Type 0) where
  pub Keeps-refl : (s : Store) → Keeps P s s
  Keeps-refl s = record { reviews = refl; rows = λ h. h; ids = λ h. h }

  pub Keeps-trans : (s t u : Store) → Keeps P s t → Keeps P t u → Keeps P s u
  Keeps-trans s t u k l = record {
    reviews = l.reviews ∙ k.reviews;
    rows = λ h. l.rows (k.rows h);
    ids = λ h. l.ids (k.ids h);
  }

  pub Keeps-write_record : (r : MemoryRecord) (s : Store) → P r → Keeps P s (write_record r s)
  unfolding write_record
  Keeps-write_record r s p = record {
    reviews = refl;
    rows = λ h. (All-upsert P r p s.records h.0, All-insert_revision P r p s.revisions h.1);
    ids = upsert-HasDistinctIds r s.records;
  }

  Keeps-added : (r : MemoryRecord) (s : Store) → P r → stored s r.id ≡ none → Keeps P s (added r s)
  unfolding added stored
  Keeps-added r s p e = record {
    reviews = refl;
    rows = λ h. (
      All-append P s.records (r ∷ []) h.0 (p, tt),
      All-append P s.revisions (r ∷ []) h.1 (p, tt),
    );
    ids = λ h. append-HasDistinctIds r s.records h (has_id-stored r.id s.records e);
  }

  Keeps-insert_explicit_record :
      (r : MemoryRecord) (s : Store) → P r → Keeps P s (insert_explicit_record r s).1
  Keeps-insert_explicit_record r s p = elim (insert_explicit-cases r s) [
    | inl e ↦ rw e (Keeps-refl s)
    | inr (none_there, e) ↦ rw e (Keeps-added r s p none_there)
  ]

  module _ (bytes : ℕ) (n : Native) (s : Store) where
    random_id-cases :
        ((create_as bytes n none s).1 ≡ s)
        ⊎ ((create_as bytes n none s).1 ≡ write_record (native_record (new_record_id bytes) n) s)
    unfolding create_as
    random_id-cases = ground arith

    Keeps-create_as :
        ((id : String) → P (native_record id n))
        → (id : Option String) → Keeps P s (create_as bytes n id s).1
    Keeps-create_as holds none = elim random_id-cases [
      | inl e ↦ rw e (Keeps-refl s)
      | inr e ↦ rw e (Keeps-write_record _ s (holds (new_record_id bytes)))
    ]
    Keeps-create_as holds (some id) = elim (explicit_id-cases bytes n s id) [
      | inl e ↦ rw e (Keeps-refl s)
      | inr e ↦ rw e (Keeps-insert_explicit_record (native_record id n) s (holds id))
    ]

    pub Keeps-create_native :
        ((id : String) → P (native_record id n)) → Keeps P s (create_native bytes n s).1
    unfolding create_native
    Keeps-create_native holds = Keeps-create_as holds n.record_id
