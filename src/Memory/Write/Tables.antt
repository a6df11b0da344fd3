-- ===== src/Memory/Write/Tables.antt =====
-- What the writes do to the tables of records and revisions.
use oscillink_agent.Base.{
  String, ◌≡◌, refl, Bool, true, false, List, [], ◌∷◌, ◌++◌, arith, ◌==◌, string_eq, All,
  All-append, exists_row, if◌then◌else◌,
}
use oscillink_agent.Memory.Types.{MemoryRecord}
use oscillink_agent.Memory.Write.{upsert, insert_revision}

abbrev pub has_id : String → List MemoryRecord → Bool
has_id id rs = exists_row (λ r. r.id == id) rs

-- `record_id` is the primary key.
abbrev pub HasDistinctIds : List MemoryRecord → Type 0
HasDistinctIds [] = Unit
HasDistinctIds (r ∷ rs) = (has_id r.id rs ≡ false) × HasDistinctIds rs

pub has_id-upsert :
    (r : MemoryRecord) (id : String) (rs : List MemoryRecord)
    → has_id id (upsert r rs) ≡ (if r.id == id then true else has_id id rs)
unfolding upsert exists_row
has_id-upsert r id [] = ground arith
has_id-upsert r id (x ∷ xs) = ground (arith, has_id-upsert r id xs)

pub upsert-HasDistinctIds :
    (r : MemoryRecord) (rs : List MemoryRecord) → HasDistinctIds rs → HasDistinctIds (upsert r rs)
unfolding upsert
upsert-HasDistinctIds r [] h = (unfold exists_row in refl, tt)
upsert-HasDistinctIds r (x ∷ xs) h =
    ground (arith, upsert-HasDistinctIds r xs h.1, has_id-upsert r x.id xs)

pub has_id-append :
    (r : MemoryRecord) (id : String) (rs : List MemoryRecord)
    → has_id id (rs ++ r ∷ []) ≡ (if has_id id rs then true else r.id == id)
unfolding exists_row
has_id-append r id [] = ground arith
has_id-append r id (x ∷ xs) = ground (arith, has_id-append r id xs)

pub append-HasDistinctIds :
    (r : MemoryRecord) (rs : List MemoryRecord)
    → HasDistinctIds rs
    → has_id r.id rs ≡ false
    → HasDistinctIds (rs ++ r ∷ [])
unfolding exists_row
append-HasDistinctIds r [] h e = (refl, tt)
append-HasDistinctIds r (x ∷ xs) h e =
    ground (arith, append-HasDistinctIds r xs h.1, has_id-append r x.id xs)

module _ (P : MemoryRecord → Type 0) (r : MemoryRecord) (p : P r) where
  pub All-upsert : (rs : List MemoryRecord) → All P rs → All P (upsert r rs)
  unfolding upsert
  All-upsert [] h = (p, tt)
  All-upsert (x ∷ xs) h = ground (arith, All-upsert xs h.1)

  pub All-insert_revision : (rs : List MemoryRecord) → All P rs → All P (insert_revision r rs)
  unfolding insert_revision
  All-insert_revision rs h = ground (arith, All-append P rs (r ∷ []) h (p, tt))
