-- ===== src/Ledger/Refinement.antt =====
-- The ledger as a client sees it: a list of events under their keys, which appends extend and
-- reads return.
use oscillink_agent.Base.{
  ◌≡◌, ◌∙◌, inl, inr, refl, sym, String, Bool, true, false, none, some, List, [], ◌∷◌, ◌++◌, arith,
  All, exists_row, select_one, ok, transaction-ok, map, ◌==◌, string_eq, Bool-cases, Option-cases,
  if◌then◌else◌, outcome-cases, transaction-ok,
}
use oscillink_agent.Domain.Events.{Event}
use oscillink_agent.Ledger.{
  Codec, Row, row_of, conflicts, on_conflict, insert_row, append_one, append_each, append_many,
  check_row, check_rows, iter_all,
}
use oscillink_agent.Ledger.Append.{append_one-Appended}

abbrev pub Entry : Type 0
Entry = Event × String

abbrev pub has_key : String → List Entry → Bool
has_key key l = exists_row (λ x. x.1 == key) l

-- The specification of an append: a key that is known is a replay, and a new one extends the list.
unfoldable pub record_entry : Entry → List Entry → List Entry
record_entry (e, key) l = if has_key key l then l else l ++ (e, key) ∷ []

unfoldable pub record_all : List Entry → List Entry → List Entry
record_all [] l = l
record_all (x ∷ xs) l = record_all xs (record_entry x l)

module _ (codec : Codec) where
  abbrev pub rows_of : List Entry → List Row
  rows_of = map (λ (x : Entry). row_of codec x.0 x.1)

  rows_of-append :
      (l : List Entry) (e : Event) (key : String)
      → rows_of (l ++ (e, key) ∷ []) ≡ rows_of l ++ row_of codec e key ∷ []
  rows_of-append [] e key = refl
  rows_of-append (x ∷ l) e key = rw (rows_of-append l e key)

  has_key-rows_of :
      (key : String) (l : List Entry)
      → exists_row (λ r. r.idempotency_key == key) (rows_of l) ≡ has_key key l
  unfolding exists_row row_of
  has_key-rows_of key [] = refl
  has_key-rows_of key (x ∷ l) = ground (arith, has_key-rows_of key l)

  -- The key of a row that was found stands in the ledger.
  key_of_found :
      (key : String) (rows : List Row) (r : Row)
      → select_one (λ x. x.idempotency_key == key) rows ≡ some r
      → exists_row (λ x. x.idempotency_key == key) rows ≡ true
  unfolding select_one exists_row
  key_of_found key [] r h = cc
  key_of_found key (x ∷ rows) r h = ground (arith, key_of_found key rows r)

  -- A row without conflict has a new key.
  pub fresh_key :
      (e : Event) (key : String) (rows : List Row)
      → exists_row (conflicts codec (row_of codec e key)) rows ≡ false
      → exists_row (λ x. x.idempotency_key == key) rows ≡ false
  unfolding exists_row conflicts row_of
  fresh_key e key [] h = refl
  fresh_key e key (x ∷ rows) h = ground (arith, fresh_key e key rows)

  pub insert_row-found :
      (e : Event) (key : String) (rows rows' : List Row) (id : String)
      → insert_row codec e key rows ≡ (ok id, rows')
      → exists_row (conflicts codec (row_of codec e key)) rows ≡ true
      → (r : Row) → select_one (λ x. x.idempotency_key == key) rows ≡ some r
      → (rows' ≡ rows) × (id ≡ e.id) × (r.event_json ≡ codec.encode e)
  unfolding insert_row on_conflict
  insert_row-found e key rows rows' id h taken r found = ground arith

  pub insert_row-unfound :
      (e : Event) (key : String) (rows rows' : List Row) (id : String)
      → insert_row codec e key rows ≡ (ok id, rows')
      → select_one (λ x. x.idempotency_key == key) rows ≡ none
      → exists_row (conflicts codec (row_of codec e key)) rows ≡ false
  unfolding insert_row on_conflict
  insert_row-unfound e key rows rows' id h found = ground arith

  pub insert_row-new :
      (e : Event) (key : String) (rows rows' : List Row) (id : String)
      → insert_row codec e key rows ≡ (ok id, rows')
      → exists_row (conflicts codec (row_of codec e key)) rows ≡ false
      → (rows' ≡ rows ++ row_of codec e key ∷ []) × (id ≡ e.id)
  unfolding insert_row
  insert_row-new e key rows rows' id h free = ground arith

  -- An insertion that returns does what the specification says.
  pub insert_row-refines :
      (e : Event) (key : String) (l : List Entry) (rows' : List Row) (id : String)
      → insert_row codec e key (rows_of l) ≡ (ok id, rows')
      → (rows' ≡ rows_of (record_entry (e, key) l)) × (id ≡ e.id)
  unfolding record_entry
  insert_row-refines e key l rows' id h =
      elim (Bool-cases (exists_row (conflicts codec (row_of codec e key)) (rows_of l))) [
        | inl taken ↦ elim (Option-cases (select_one (λ x. x.idempotency_key == key) (rows_of l))) [
          | inl unfound ↦
              absurd
                (let free = insert_row-unfound e key (rows_of l) rows' id h unfound in ground arith)
          | inr (r, found) ↦
              let known : has_key key l ≡ true =
                sym (has_key-rows_of key l) ∙ key_of_found key (rows_of l) r found in
              let done = insert_row-found e key (rows_of l) rows' id h taken r found in
              (rw known done.0, done.1)
        ]
        | inr free ↦
            let unknown : has_key key l ≡ false =
              sym (has_key-rows_of key l) ∙ fresh_key e key (rows_of l) free in
            let done = insert_row-new e key (rows_of l) rows' id h free in
            (rw (unknown, rows_of-append l e key) done.0, done.1)
      ]

  -- Both parts of a batch that returns have returned.
  pub append_each-parts :
      (e : Event) (key : String) (xs : List Entry) (rows rows' : List Row) (ids : List String)
      → append_each codec ((e, key) ∷ xs) rows ≡ (ok ids, rows')
      → (id : String) × (mid : List Row) × (rest : List String) × (append_one codec e key rows
          ≡ (ok id, mid))
        × (append_each codec xs mid ≡ (ok rest, rows'))
        × (ids ≡ id ∷ rest)
  unfolding append_each
  append_each-parts e key xs rows rows' ids h = elim (outcome-cases (append_one codec e key rows)) [
    | inl (id, first) ↦
        elim (outcome-cases (append_each codec xs (append_one codec e key rows).1)) [
          | inl (rest, second) ↦
              (id, (append_one codec e key rows).1, rest, first, ground arith, ground arith)
          | inr (x, second) ↦ absurd (ground arith)
        ]
    | inr (x, first) ↦ absurd (ground arith)
  ]

  pub append_each-refines :
      (xs : List Entry) (l : List Entry) (rows' : List Row) (ids : List String)
      → append_each codec xs (rows_of l) ≡ (ok ids, rows')
      → (rows' ≡ rows_of (record_all xs l)) × (ids ≡ map (λ x. x.0.id) xs)
  unfolding append_each record_all
  append_each-refines [] l rows' ids h = (ground arith, ground arith)
  append_each-refines ((e, key) ∷ xs) l rows' ids h =
      let (id, mid, rest, first, second, parts) =
        append_each-parts e key xs (rows_of l) rows' ids h in
      let inserted = (append_one-Appended codec e key (rows_of l) mid id first).inserted in
      let one = insert_row-refines e key l mid id inserted in
      let more =
        append_each-refines xs (record_entry (e, key) l) rows' rest (rw (sym one.0) second) in
      (more.0, ground arith)

  -- A row that was written by an append passes the checks of a read.
  pub check_row-row_of :
      (e : Event) (key : String)
      → codec.decode (codec.encode e) ≡ some e
      → check_row codec (row_of codec e key) ≡ ok e
  unfolding check_row row_of
  check_row-row_of e key h = ground arith

  pub check_rows-rows_of :
      (l : List Entry)
      → All (λ x. codec.decode (codec.encode x.0) ≡ some x.0) l
      → check_rows codec (rows_of l) ≡ ok (map (λ x. x.0) l)
  unfolding check_rows
  check_rows-rows_of [] h = refl
  check_rows-rows_of ((e, key) ∷ l) h =
      ground (arith, check_row-row_of e key h.0, check_rows-rows_of l h.1)

  -- A batch that returned has done to the ledger what the specification does to its entries: it
  -- returns the ids of the events, and, where the codec reads back every event recorded, iterating
  -- over the ledger then yields the events of the specification in order.
  pub append_many-refines :
      (xs l : List Entry) (rows' : List Row) (ids : List String)
      → append_many codec xs (rows_of l) ≡ (ok ids, rows')
      → All (λ x. codec.decode (codec.encode x.0) ≡ some x.0) (record_all xs l)
      → (rows' ≡ rows_of (record_all xs l))
        × (ids ≡ map (λ x. x.0.id) xs)
        × (iter_all codec rows' ≡ ok (map (λ x. x.0) (record_all xs l)))
  unfolding append_many iter_all
  append_many-refines xs l rows' ids h readable =
      let done =
        append_each-refines xs l rows' ids
          (transaction-ok (append_each codec xs) (rows_of l) ids h) in
      (done.0, done.1, rw done.0 (check_rows-rows_of (record_all xs l) readable))
