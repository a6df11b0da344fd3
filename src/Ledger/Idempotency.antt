-- ===== src/Ledger/Idempotency.antt =====
-- Repeating an append: the rows that answer it, and that it changes nothing.
use oscillink_agent.Base.{
  ◌≡◌, ◌∙◌, inl, inr, refl, sym, String, true, false, some, List, [], ◌∷◌, ◌++◌, arith, All,
  All-map, exists_row, select_one, select_one-append, ok, select_one-append_found,
  exists_row-append_left, select_one-exists_row, exists_row-select_one, append-nil, append_assoc,
  transaction-ok, ◌==◌, string_eq, Bool-cases, Option-cases, map,
}
use oscillink_agent.Domain.Identifiers.{is_idempotency_key}
use oscillink_agent.Domain.Events.{Event}
use oscillink_agent.Ledger.{
  Codec, Row, is_resolved, row_of, conflicts, on_conflict, insert_row, append_one, append_each,
  append_many,
}
use oscillink_agent.Ledger.Append.{append_one-Appended, parents-check, artifacts-check, has_event}
use oscillink_agent.Ledger.Refinement.{
  Entry, append_each-parts, fresh_key, insert_row-found, insert_row-new,
}

-- The later rows are the earlier ones and more behind them.
abbrev Extends : List Row → List Row → Type 0
Extends rows rows' = (ys : List Row) × (rows' ≡ rows ++ ys)

Extends-trans :
    (rows mid rows' : List Row) → Extends rows mid → Extends mid rows' → Extends rows rows'
Extends-trans rows mid rows' (ys, first) (zs, second) =
    (ys ++ zs, rw (second, first) (append_assoc rows ys zs))

module _ (codec : Codec) where
  -- The row that answers an append of the event under the key.
  record Answered (e : Event) (key : String) (rows : List Row) : Type 0 where
    row : Row
    found : select_one (λ r. r.idempotency_key == key) rows ≡ some row
    same_id : row.event_id ≡ e.id
    same_json : row.event_json ≡ codec.encode e

  -- All that a repeated append depends on.
  record Repeatable (e : Event) (key : String) (rows : List Row) : Type 0 where
    keyed : is_idempotency_key key ≡ true
    parents : All (λ p. has_event rows p ≡ true) e.causal_parent_ids
    artifacts : All (λ a. is_resolved codec a ≡ true) e.artifact_refs
    answered : Answered e key rows

  Answered-append :
      (e : Event) (key : String) (rows ys : List Row)
      → Answered e key rows
      → Answered e key (rows ++ ys)
  Answered-append e key rows ys h = record {
    row = h.row;
    found = select_one-append_found (λ r. r.idempotency_key == key) rows ys h.row h.found;
    same_id = h.same_id;
    same_json = h.same_json;
  }

  Repeatable-append :
      (e : Event) (key : String) (rows ys : List Row)
      → Repeatable e key rows
      → Repeatable e key (rows ++ ys)
  Repeatable-append e key rows ys h = record {
    keyed = h.keyed;
    parents =
        All-map _ _ e.causal_parent_ids (λ p. exists_row-append_left (λ r. r.event_id == p) rows ys)
          h.parents;
    artifacts = h.artifacts;
    answered = Answered-append e key rows ys h.answered;
  }

  taken-Answered :
      (e : Event) (key : String) (rows rows' : List Row) (id : String)
      → insert_row codec e key rows ≡ (ok id, rows')
      → exists_row (conflicts codec (row_of codec e key)) rows ≡ true
      → Answered e key rows
  unfolding insert_row on_conflict
  taken-Answered e key rows rows' id h taken =
      elim (Option-cases (select_one (λ x. x.idempotency_key == key) rows)) [
        | inl unfound ↦ absurd (ground arith)
        | inr (r, found) ↦ record {
          row = r;
          found = found;
          same_id = ground arith;
          same_json = ground arith;
        }
      ]

  appended-Answered :
      (e : Event) (key : String) (rows : List Row)
      → exists_row (λ x. x.idempotency_key == key) rows ≡ false
      → Answered e key (rows ++ row_of codec e key ∷ [])
  unfolding row_of
  appended-Answered e key rows unknown = record {
    row = row_of codec e key;
    found =
        select_one-append (λ x. x.idempotency_key == key) rows (row_of codec e key)
          (select_one-exists_row (λ x. x.idempotency_key == key) rows unknown)
        ∙ ground arith;
    same_id = refl;
    same_json = refl;
  }

  -- The ledger after an insertion that returned extends the one before, and answers a repeat.
  insert_row-Answered :
      (e : Event) (key : String) (rows rows' : List Row) (id : String)
      → insert_row codec e key rows ≡ (ok id, rows')
      → (id ≡ e.id) × Extends rows rows' × Answered e key rows'
  insert_row-Answered e key rows rows' id h =
      elim (Bool-cases (exists_row (conflicts codec (row_of codec e key)) rows)) [
        | inl taken ↦
            let answered = taken-Answered e key rows rows' id h taken in
            let same =
              insert_row-found codec e key rows rows' id h taken answered.row answered.found in
            (same.1, ([], same.0 ∙ sym (append-nil rows)), rw same.0 answered)
        | inr free ↦
            let new = insert_row-new codec e key rows rows' id h free in
            let answered = appended-Answered e key rows (fresh_key codec e key rows free) in
            (new.1, (row_of codec e key ∷ [], new.0), rw new.0 answered)
      ]

  append_one-Repeatable :
      (e : Event) (key : String) (rows rows' : List Row) (id : String)
      → append_one codec e key rows ≡ (ok id, rows')
      → (id ≡ e.id) × Extends rows rows' × Repeatable e key rows'
  append_one-Repeatable e key rows rows' id h =
      let done = append_one-Appended codec e key rows rows' id h in
      let inserted = insert_row-Answered e key rows rows' id done.inserted in
      let (ys, grown) = inserted.1 in
      (
        inserted.0,
        (ys, grown),
        record {
          keyed = done.keyed;
          parents = rw grown (
              All-map (λ p. has_event rows p ≡ true) (λ p. has_event (rows ++ ys) p ≡ true)
                e.causal_parent_ids (λ p. exists_row-append_left (λ r. r.event_id == p) rows ys)
                done.parents);
          artifacts = done.artifacts;
          answered = inserted.2;
        },
      )

  Repeatable-Extends :
      (e : Event) (key : String) (rows rows' : List Row)
      → Extends rows rows'
      → Repeatable e key rows
      → Repeatable e key rows'
  Repeatable-Extends e key rows rows' (ys, grown) h = rw grown (Repeatable-append e key rows ys h)

  append_each-Repeatable :
      (xs : List Entry) (rows rows' : List Row) (ids : List String)
      → append_each codec xs rows ≡ (ok ids, rows')
      → (ids ≡ map (λ x. x.0.id) xs) × Extends rows rows' × All (λ x. Repeatable x.0 x.1 rows') xs
  unfolding append_each
  append_each-Repeatable [] rows rows' ids h =
      (ground arith, ([], ground arith ∙ sym (append-nil rows)), tt)
  append_each-Repeatable ((e, key) ∷ xs) rows rows' ids h =
      let (id, mid, rest, first, second, parts) =
        append_each-parts codec e key xs rows rows' ids h in
      let one = append_one-Repeatable e key rows mid id first in
      let more = append_each-Repeatable xs mid rows' rest second in
      (
        ground arith,
        Extends-trans rows mid rows' one.1 more.1,
        (Repeatable-Extends e key mid rows' more.1 one.2, more.2),
      )

  conflicts-same_id :
      (e : Event) (key : String) (r : Row)
      → r.event_id ≡ e.id
      → conflicts codec (row_of codec e key) r ≡ true
  unfolding conflicts row_of
  conflicts-same_id e key r h = ground arith

  insert_row-again :
      (e : Event) (key : String) (rows : List Row)
      → Answered e key rows
      → insert_row codec e key rows ≡ (ok e.id, rows)
  unfolding insert_row on_conflict
  insert_row-again e key rows h =
      let taken : exists_row (conflicts codec (row_of codec e key)) rows ≡ true =
        exists_row-select_one (conflicts codec (row_of codec e key)) (λ r. r.idempotency_key == key)
          rows h.row h.found (conflicts-same_id e key h.row h.same_id) in
      ground (arith, h.found, h.same_id, h.same_json)

  append_one-again :
      (e : Event) (key : String) (rows : List Row)
      → Repeatable e key rows
      → append_one codec e key rows ≡ (ok e.id, rows)
  unfolding append_one
  append_one-again e key rows h = ground (
    arith,
    h.keyed,
    parents-check e.causal_parent_ids rows h.parents,
    artifacts-check codec e.artifact_refs rows h.artifacts,
    insert_row-again e key rows h.answered,
  )

  append_each-again :
      (xs : List Entry) (rows : List Row)
      → All (λ x. Repeatable x.0 x.1 rows) xs
      → append_each codec xs rows ≡ (ok (map (λ x. x.0.id) xs), rows)
  unfolding append_each
  append_each-again [] rows h = refl
  append_each-again ((e, key) ∷ xs) rows h =
      ground (arith, append_one-again e key rows h.0, append_each-again xs rows h.1)

  -- A batch that returned can be repeated after any further batch that returned: the repeat returns
  -- the same ids and does not change the ledger.
  pub append_many-repeat :
      (xs ys : List Entry) (rows mid rows' : List Row) (ids others : List String)
      → append_many codec xs rows ≡ (ok ids, mid)
      → append_many codec ys mid ≡ (ok others, rows')
      → append_many codec xs rows' ≡ (ok ids, rows')
  unfolding append_many
  append_many-repeat xs ys rows mid rows' ids others h later =
      let once =
        append_each-Repeatable xs rows mid ids (transaction-ok (append_each codec xs) rows ids h) in
      let more =
        append_each-Repeatable ys mid rows' others
          (transaction-ok (append_each codec ys) mid others later) in
      let still =
        All-map (λ x. Repeatable x.0 x.1 mid) (λ x. Repeatable x.0 x.1 rows') xs
          (λ x. Repeatable-Extends x.0 x.1 mid rows' more.1) once.2 in
      let again = append_each-again xs rows' still in ground (arith, once.0, again)
